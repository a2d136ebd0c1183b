-- ===== src/Watchdog.antt =====
-- watchdog/impl.go: `WatchDog`, a lock in Redis that a goroutine keeps from expiring. The Redis client
-- is a parameter. A key, a value and a context are known by numbers.
pub mod Exclusion
pub mod Keeper
pub mod Instance
pub mod Lease
mod Tests
use eins.Prelude.{
  ℕ, suc, ◌/◌, Bool, true, false, ◌||◌, not, Option, none, some, List, [], ◌∷◌, if◌then◌else◌, ◌==◌,
}
use eins.Prelude.Family.{update}

-- What the code calls of `redis.Client`: the reply of each command with its error.
pub record Client (R : Type 0) : Type 0 where
  pub set_nx : R → ℕ → ℕ → ℕ → (Option ℕ × Bool) × R
  pub del : R → ℕ → Option ℕ × R
  pub expire : R → ℕ → ℕ → (Option ℕ × Bool) × R

-- A goroutine of `Watch`, at its `select`: its context with the caller's that it was made from, its key and
-- the time that it renews for.
pub record Watcher : Type 0 where
  pub ctx : ℕ
  pub parent : ℕ
  pub key : ℕ
  pub dur : ℕ

-- `WatchDog`. `cancel` is the context that `w.cancel` ends; `cancelled` are the contexts that are over;
-- `crashed` says that a goroutine has panicked.
pub record Dog : Type 0 where
  pub cancel : Option ℕ
  pub next_ctx : ℕ
  pub cancelled : ℕ → Bool
  pub watchers : List Watcher
  pub crashed : Bool

-- What an operation returns, and the state that it leaves.
pub record Done (R : Type 0) : Type 0 where
  pub error : Option ℕ
  pub dog : Dog
  pub redis : R

abbrev pub failed : Option ℕ → Bool
failed none = false
failed (some e) = true

-- `Watch`: the goroutine is started; `time.NewTicker` panics on a period of 0.
unfoldable pub watch : Dog → ℕ → ℕ → ℕ → ℕ → Dog
watch w ctx parent key dur = if dur / 7 == 0 then record w { crashed = true } else record w {
  watchers = record { ctx = ctx; parent = parent; key = key; dur = dur } ∷ w.watchers;
}

-- `context.WithCancel` and the assignment of `w.c` and `w.cancel`.
abbrev pub with_cancel : Dog → Dog
with_cancel w = record w { cancel = some w.next_ctx; next_ctx = suc w.next_ctx }

-- `w.cancel()`, if there is one.
unfoldable pub cancel_watch : Dog → Option ℕ → Dog
cancel_watch w none = w
cancel_watch w (some c) = record w { cancelled = update w.cancelled c true }

-- The `Watcher`s without the one in the place `i`.
unfoldable pub without : List Watcher → ℕ → List Watcher
without [] i = []
without (g ∷ gs) ℕ.zero = gs
without (g ∷ gs) (suc i) = g ∷ without gs i

module _ {R : Type 0} (redis : Client R) where
  open redis use {set_nx, del, expire}

  -- `Lock` with the caller's context `parent`.
  unfoldable pub lock : Dog → R → ℕ → ℕ → ℕ → ℕ → Done R
  unfolding watch
  lock w r parent key v dur =
      let ((err, won), r') = set_nx r key v dur in
      if failed err || not won then record { error = err; dog = w; redis = r' } else record {
        error = none;
        dog = watch (with_cancel w) w.next_ctx parent key dur;
        redis = r';
      }

  -- `Unlock`.
  unfoldable pub unlock : Dog → R → ℕ → Done R
  unfolding cancel_watch
  unlock w r key =
      let (err, r') = del r key in record { error = err; dog = cancel_watch w w.cancel; redis = r' }

  -- A goroutine of `Watch` as its `select` goes on: by the end of its context, which it then returns
  -- on, or by the ticker. Its context ends by `cancel`, or with the caller's; `over` are those of the
  -- callers that are over. The flag says that the goroutine has returned.
  unfoldable pub watch_wake : Dog → R → (ℕ → Bool) → Watcher → Bool → Bool × R
  watch_wake w r over g by_ticker =
      let ((err, renewed), r') = expire r g.key g.dur in
      if by_ticker then (failed err || not renewed, r') else (w.cancelled g.ctx || over g.parent, r)
