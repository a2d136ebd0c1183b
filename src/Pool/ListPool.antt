-- ===== src/Pool/ListPool.antt =====
-- onepool/list.go, the pool over a linked list (`List`). A function here is one critical section:
-- what the code does from a `p.mu.Lock()` to the next `p.mu.Unlock()`, with the calls of `Close` and
-- `New` that follow it. `System` interleaves them.
pub mod Session
pub mod System
pub mod Accounting
pub mod Ownership
pub mod Limits
pub mod Alone
pub mod Wakeup
pub mod Stack
mod Tests
use eins.Prelude.{
  ℕ, zero, suc, ◌≡◌, refl, Bool, true, false, ◌&&◌, ◌||◌, not, Option, none, some, List, [], ◌∷◌,
  length, split_back, if◌then◌else◌,
}
use eins.Prelude.Int.{ℤ, pos, ◌+ℤ◌, ◌-ℤ◌, ltb_ℤ, leb_ℤ, eqb_ℤ}
use eins.Pool.{Config, Item, PoolError, expired, config_ok}

-- Where the goroutine of `staleCleaner` stands. `evicting` is the unlocked `Close` of one item, with
-- the rounds of the loop that are left.
pub data Cleaner : Type 0 where
  off sleeping exited : Cleaner
  evicting : ℕ → Cleaner

-- `List`. `cleaner_ch` is nil, or a channel of one place that is full or not; `idles` is front first.
-- Of `cond`, an unbuffered channel, the waiters are the sessions that receive on it.
pub record ListPool : Type 0 where
  pub closed : Bool
  pub active : ℤ
  pub cleaner_ch : Option Bool
  pub cleaner : Cleaner
  pub idles : List Item
  pub conf : Config

-- `startCleanerLocked`.
unfoldable pub start_cleaner : ListPool → ℤ → ListPool
start_cleaner p d = if leb_ℤ d (pos 0) then p else elim p.cleaner_ch [
  | none ↦ record p { cleaner_ch = some false; cleaner = sleeping }
  | some full ↦ if ltb_ℤ d p.conf.idle_timeout then record p { cleaner_ch = some true } else p
]

-- `NewList`; `none` is the panic.
unfoldable pub new_list : Option Config → Option ListPool
unfolding config_ok start_cleaner
new_list none = none
new_list (some conf) =
    if config_ok conf
    then some (
        start_cleaner
          (record {
            closed = false;
            active = pos 0;
            cleaner_ch = none;
            cleaner = off;
            idles = [];
            conf = conf;
          })
          conf.idle_timeout)
    else none

-- `Reload`.
unfoldable pub reload : ListPool → Config → ListPool
unfolding start_cleaner
reload p conf = record (start_cleaner p conf.idle_timeout) { conf = conf }

-- `release` without its signal, which the caller reports.
abbrev pub release : ListPool → ListPool
release p = record p { active = p.active -ℤ pos 1 }

-- What a critical section hands over: the pool, whether it signalled `cond`, and the item to close.
pub record Section : Type 0 where
  pub pool : ListPool
  pub signals : Bool
  pub closes : List ℕ

-- The end of `Put`: the item `c` that has no place is released and closed.
abbrev discard : ListPool → ℕ → Section
discard p c = record { pool = release p; signals = true; closes = c ∷ [] }

-- `Put` of an item into an open pool: to the front, and the back goes if there are too many.
shelve : ListPool → ℕ → ℕ → Section
shelve p now c =
    let i : Item = record { created_at = now; c = c } in
    let (rest, back) = split_back i p.idles in
    if ltb_ℤ p.conf.idle (pos (suc (length p.idles)))
    then discard (record p { idles = rest }) back.c
    else record { pool = record p { idles = i ∷ p.idles }; signals = true; closes = [] }

-- `Put`.
unfoldable pub put : ListPool → ℕ → ℕ → Bool → Section
unfolding shelve
put p now c force_close = if not p.closed && not force_close then shelve p now c else discard p c

-- The items of a list, as `Close` closes them.
abbrev pub conns : List Item → List ℕ
conns [] = []
conns (i ∷ is) = i.c ∷ conns is

-- `Close`.
unfoldable pub close : ListPool → Section
close p = record {
  pool = record p { idles = []; closed = true; active = p.active -ℤ pos (length p.idles) };
  signals = false;
  closes = conns p.idles;
}

-- `Stat`: the configured limits, the established and the idle connections.
unfoldable pub stat : ListPool → ℤ × ℤ × ℤ × ℤ
stat p = (p.conf.active, p.conf.idle, p.active, pos (length p.idles))

-- The loop of `staleCleaner` under the lock, up to the next item that it has to close.
clean_back : ListPool → ℕ → ℕ → Item → List Item → Section
clean_back p now rounds x xs =
    let (rest, back) = split_back x xs in
    if expired now p.conf.idle_timeout back
    then record {
      pool = release (record p { idles = rest; cleaner = evicting rounds });
      signals = true;
      closes = back.c ∷ [];
    }
    else record { pool = record p { cleaner = sleeping }; signals = false; closes = [] }

abbrev rest_cleaner : ListPool → Section
rest_cleaner p = record { pool = record p { cleaner = sleeping }; signals = false; closes = [] }

clean_items : ListPool → ℕ → ℕ → List Item → Section
unfolding clean_back
clean_items p now zero xs = rest_cleaner p
clean_items p now (suc rounds) [] = rest_cleaner p
clean_items p now (suc rounds) (x ∷ xs) = clean_back p now rounds x xs

-- The section after the ticker or the channel wakes the cleaner.
unfoldable pub clean_wake : ListPool → ℕ → Section
unfolding clean_items
clean_wake p now =
    if p.closed || leb_ℤ p.conf.idle_timeout (pos 0)
    then record { pool = record p { cleaner = exited }; signals = false; closes = [] }
    else clean_items p now (length p.idles) p.idles

-- The receive from the channel that wakes the cleaner.
abbrev drained : ListPool → Bool → ListPool
drained p poked = if poked then record p { cleaner_ch = some false } else p

-- What the cleaner does next; `poked` tells the channel from the ticker.
unfoldable pub clean_step : ListPool → ℕ → Bool → Section
unfolding clean_wake
clean_step p now poked = elim p.cleaner [
  | off ↦ record { pool = p; signals = false; closes = [] }
  | exited ↦ record { pool = p; signals = false; closes = [] }
  | sleeping ↦ clean_wake (drained p poked) now
  | evicting rounds ↦ clean_items p now rounds p.idles
]

-- A property of a step of the cleaner, by the cases of where the cleaner stands.
clean_step_cases {ℓ} :
    (P : Section → Type ℓ) (p : ListPool) (now : ℕ) (poked : Bool)
    → P (record { pool = p; signals = false; closes = [] })
    → P (clean_wake (drained p poked) now)
    → ((rounds : ℕ) → P (clean_items p now rounds p.idles))
    → P (clean_step p now poked)
unfolding clean_step
clean_step_cases P p now poked still woken evicts = go p.cleaner refl
  where
    go : (c : Cleaner) → p.cleaner ≡ c → P (clean_step p now poked)
    go off e = rw (e, clean_step) still
    go exited e = rw (e, clean_step) still
    go sleeping e = rw (e, clean_step) woken
    go (evicting rounds) e = rw (e, clean_step) (evicts rounds)
