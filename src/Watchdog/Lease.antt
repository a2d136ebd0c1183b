-- ===== src/Watchdog/Lease.antt =====
-- watchdog/impl.go: several `WatchDog`s on one key that expires, on the clock of Redis.
pub mod Dogs
pub mod Calls
pub mod Wakes
pub mod Kept
mod Tests
use eins.Prelude.{
  ℕ, ◌+◌, ◌/◌, ◌≡◌, ◌≢◌, ◌≤◌, ◌<◌, Bool, true, false, Option, none, some, List, [], get_elem?,
  if◌then◌else◌,
}
use eins.Prelude.Family.{update}
use eins.Watchdog.{Client, Watcher, Dog}
use eins.Watchdog.Instance.{new_dog}
use eins.Watchdog.Exclusion.{System, wins, after_lock, after_unlock, after_wake}

-- What is documented of Redis about keys that expire: `deadline` is the time at which the key goes,
-- `time` the clock, and `wait` lets time pass. It does not fail to renew a key that is there.
pub record IsExpiring {R : Type 0} (client : Client R) (key : ℕ) (deadline : R → Option ℕ)
    (time : R → ℕ) (wait : R → ℕ → R) : Type 0 where
  pub set_absent :
      (r : R) (v dur : ℕ) {d : ℕ}
      → (client.set_nx r key v dur).0.1 ≡ true
      → deadline r ≡ some d
      → d ≤ time r
  pub set_there :
      (r : R) (v dur : ℕ)
      → (client.set_nx r key v dur).0.1 ≡ true
      → deadline (client.set_nx r key v dur).1 ≡ some (time r + dur)
  pub set_keeps :
      (r : R) (v dur : ℕ) {d : ℕ}
      → deadline r ≡ some d
      → time r < d
      → deadline (client.set_nx r key v dur).1 ≡ some d
  pub set_time : (r : R) (v dur : ℕ) → time (client.set_nx r key v dur).1 ≡ time r
  pub expire_renews :
      (r : R) (dur : ℕ) {d : ℕ}
      → deadline r ≡ some d
      → time r < d
      → ((client.expire r key dur).0 ≡ (none, true))
        × (deadline (client.expire r key dur).1 ≡ some (time r + dur))
  pub expire_time : (r : R) (dur : ℕ) → time (client.expire r key dur).1 ≡ time r
  pub wait_time : (r : R) (now : ℕ) → time (wait r now) ≡ now
  pub wait_keeps :
      (r : R) (now : ℕ) {d : ℕ} → deadline r ≡ some d → now < d → deadline (wait r now) ≡ some d

-- The `WatchDog`s, when the ticker of each is due, and which contexts of callers are over.
pub record Leased (R : Type 0) : Type 0 where
  pub system : System R
  pub due : ℕ → ℕ
  pub over : ℕ → Bool

module _ {R : Type 0} (client : Client R) (key dur : ℕ) (time : R → ℕ) (wait : R → ℕ → R) where
  -- All lock the key for `dur`, and unlock it only if they have won it. The context that one gives to `Lock`
  -- is not over then, and does not end while it owns the key. The goroutine that renews the key has a turn
  -- within `dur / 7` of the last one; any goroutine may wake more often, and also one whose context is
  -- over.
  pub data Step (x : Leased R) : Leased R → Type 0 where
    locks :
        (i parent v : ℕ)
        → x.over parent ≡ false
        → Step x (record x {
          system = after_lock client key x.system i parent v dur;
          due =
              if wins client key x.system.redis v dur
              then update x.due i (time x.system.redis + dur / 7)
              else x.due;
        })
    unlocks :
        (i : ℕ)
        → x.system.owns i ≡ true
        → Step x (record x { system = after_unlock client key x.system i })
    ticks :
        (i p : ℕ) (g : Watcher)
        → get_elem? (x.system.dogs i).watchers p ≡ some g
        → (x.system.dogs i).cancel ≡ some g.ctx
        → Step x (record x {
          system = after_wake client key x.system x.over i p g true;
          due = update x.due i (time x.system.redis + dur / 7);
        })
    wakes :
        (i p : ℕ) (g : Watcher) (by_ticker : Bool)
        → get_elem? (x.system.dogs i).watchers p ≡ some g
        → Step x (record x { system = after_wake client key x.system x.over i p g by_ticker })
    ends :
        (c : ℕ)
        → ((i p : ℕ) (g : Watcher)
            → x.system.owns i ≡ true
            → get_elem? (x.system.dogs i).watchers p ≡ some g
            → (x.system.dogs i).cancel ≡ some g.ctx
            → g.parent ≢ c)
        → Step x (record x { over = update x.over c true })
    passes :
        (now : ℕ)
        → time x.system.redis ≤ now
        → ((i : ℕ) → x.system.owns i ≡ true → now ≤ x.due i)
        → Step x (record x { system = record x.system { redis = wait x.system.redis now } })

  pub data Reach : Leased R → Type 0 where
    begins :
        (x : Leased R)
        → ((i : ℕ) → x.system.owns i ≡ false)
        → ((i : ℕ) → x.system.dogs i ≡ new_dog)
        → Reach x
    later : {x y : Leased R} → Reach x → Step x y → Reach y
