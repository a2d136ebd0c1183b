-- ===== src/Watchdog/Instance.antt =====
-- watchdog/global.go: `NewWatchDog`, and what a `WatchDog` without a client does.
use eins.Prelude.{ℕ, ◌≡◌, refl, false, Option, none, some, []}
use eins.Watchdog.{Client, Dog, Done, lock, unlock}

-- `WatchDog` with its client, which may be nil.
pub record WatchDog (R : Type 0) : Type 0 where
  pub rds : Option (Client R)
  pub dog : Dog

-- A `WatchDog` that was not used, but for its client.
abbrev pub new_dog : Dog
new_dog = record {
  cancel = none;
  next_ctx = 0;
  cancelled = λ c. false;
  watchers = [];
  crashed = false;
}

-- `NewWatchDog`: the zero struct.
abbrev new_watch_dog : {R : Type 0} → WatchDog R
new_watch_dog = record { rds = none; dog = new_dog }

-- `Lock` and `Unlock`; `none` is the panic of a nil client.
unfoldable lock_with : {R : Type 0} → WatchDog R → R → ℕ → ℕ → ℕ → ℕ → Option (Done R)
lock_with w r parent key v dur = elim w.rds [
  | none ↦ none
  | some c ↦ some (lock c w.dog r parent key v dur)
]

unfoldable unlock_with : {R : Type 0} → WatchDog R → R → ℕ → Option (Done R)
unlock_with w r key = elim w.rds [ none ↦ none | some c ↦ some (unlock c w.dog r key) ]

-- Every call on what `NewWatchDog` returns panics.
new_watch_dog_panics :
    {R : Type 0} (r : R) (parent key v dur : ℕ)
    → (lock_with new_watch_dog r parent key v dur ≡ none) × (unlock_with new_watch_dog r key ≡ none)
unfolding lock_with unlock_with
new_watch_dog_panics r parent key v dur = (refl, refl)
