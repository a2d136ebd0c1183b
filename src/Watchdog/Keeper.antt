-- ===== src/Watchdog/Keeper.antt =====
-- watchdog/impl.go: the goroutine that keeps a lock from expiring, and when it ends.
use eins.Prelude.{ℕ, suc, ◌≡◌, ◌≤◌, Bool, true, false, none, some, ◌∷◌, arith, ℕ_discrete}
use eins.Watchdog.{Client, Watcher, Dog, lock, unlock, watch_wake}

-- The goroutine that a `Lock` of `w` starts.
abbrev pub started : Dog → ℕ → ℕ → ℕ → Watcher
started w parent key dur = record { ctx = w.next_ctx; parent = parent; key = key; dur = dur }

module _ {R : Type 0} (redis : Client R) where
  open redis use {set_nx, del, expire}

  lock-won :
      (w : Dog) (r s : R) (parent key v dur : ℕ)
      → set_nx r key v dur ≡ ((none, true), s)
      → 7 ≤ dur
      → lock redis w r parent key v dur ≡ record {
        error = none;
        dog = record w {
          cancel = some w.next_ctx;
          next_ctx = suc w.next_ctx;
          watchers = started w parent key dur ∷ w.watchers;
        };
        redis = s;
      }
  unfolding lock
  lock-won w r s parent key v dur won long = ground arith

  -- After a `Lock` that has won and the `Unlock` of the same key, the goroutine returns as soon as it
  -- wakes, by the end of its context or by its ticker, if Redis does not renew a deleted key.
  pub unlock_ends_watch :
      (w : Dog) (r s : R) (parent key v dur : ℕ) (over : ℕ → Bool) (by_ticker : Bool)
      → ((t : R) (d : ℕ) → (expire (del t key).1 key d).0.1 ≡ false)
      → set_nx r key v dur ≡ ((none, true), s)
      → 7 ≤ dur
      → let a = lock redis w r parent key v dur in
        let b = unlock redis a.dog a.redis key in
        (watch_wake redis b.dog b.redis over (started w parent key dur) by_ticker).0 ≡ true
  unfolding unlock watch_wake ℕ_discrete
  unlock_ends_watch w r s parent key v dur over by_ticker gone won long =
      rw (lock-won w r s parent key v dur won long) (ground (arith, gone s dur))

  -- A `WatchDog` that has won two keys ends the goroutine of the second one when the first one is
  -- unlocked, and not the goroutine of the first.
  unlock_ends_other :
      (w : Dog) (r s t : R) (parent first second v dur : ℕ) (over : ℕ → Bool)
      → set_nx r first v dur ≡ ((none, true), s)
      → set_nx s second v dur ≡ ((none, true), t)
      → 7 ≤ dur
      → w.cancelled w.next_ctx ≡ false
      → over parent ≡ false
      → let a = lock redis w r parent first v dur in
        let b = lock redis a.dog a.redis parent second v dur in
        let c = unlock redis b.dog b.redis first in
        ((watch_wake redis c.dog c.redis over (started a.dog parent second dur) false).0 ≡ true)
        × ((watch_wake redis c.dog c.redis over (started w parent first dur) false).0 ≡ false)
  unfolding unlock watch_wake
  unlock_ends_other w r s t parent first second v dur over won won' long runs going =
      rw (lock-won w r s parent first v dur won long) (
        rw
          (lock-won
            (record w {
              cancel = some w.next_ctx;
              next_ctx = suc w.next_ctx;
              watchers = started w parent first dur ∷ w.watchers;
            })
            s t parent second v dur won' long)
          (ground arith))
