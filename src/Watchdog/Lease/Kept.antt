-- ===== src/Watchdog/Lease/Kept.antt =====
-- watchdog/impl.go: who has won a key keeps it, as long as its goroutine has its turns in time.
use eins.Prelude.{ℕ, ◌≡◌, ◌≤◌, ◌<◌, true, Option, some, arith}
use eins.Watchdog.{Client}
use eins.Watchdog.Lease.{
  IsExpiring, Leased, Step, locks, unlocks, ticks, wakes, passes, ends, Reach, begins, later,
}
use eins.Watchdog.Lease.Dogs.{IsLive, new_dog-IsSound}
use eins.Watchdog.Lease.Calls.{ends-IsKept, IsKept, locks-IsKept, unlocks-IsKept, passes-IsKept}
use eins.Watchdog.Lease.Wakes.{wakes-IsKept, ticks-IsKept}

module _ {R : Type 0} {client : Client R} {key dur : ℕ} {deadline : R → Option ℕ} {time : R → ℕ}
    {wait : R → ℕ → R} (law : IsExpiring client key deadline time wait) (long : 7 ≤ dur) where
  Step-IsKept :
      {x y : Leased R}
      → Step client key dur time wait x y
      → IsKept key dur deadline time x
      → IsKept key dur deadline time y
  Step-IsKept {x} (locks i parent v going) h = locks-IsKept law long x i parent v going h
  Step-IsKept {x} (unlocks i mine) h = unlocks-IsKept law long x i mine h
  Step-IsKept {x} (ticks i p g here its) h = ticks-IsKept law long x i p g here h
  Step-IsKept {x} (wakes i p g by_ticker here) h = wakes-IsKept law long x i p g by_ticker here h
  Step-IsKept {x} (ends c others) h = ends-IsKept law long x c others h
  Step-IsKept {x} (passes now later_on in_time) h = passes-IsKept law long x now later_on in_time h

  Reach-IsKept : {x : Leased R} → Reach client key dur time wait x → IsKept key dur deadline time x
  Reach-IsKept (begins x none_owns fresh) = record {
    one = λ i j mine yours. ground (arith, none_owns i);
    lasts = λ i mine. ground (arith, none_owns i);
    lives = λ i mine. ground (arith, none_owns i);
    sound = λ i. rw (fresh i) new_dog-IsSound;
  }
  Reach-IsKept (later r st) = Step-IsKept st (Reach-IsKept r)

-- Of those that lock one key for one time of at least 7 units, and unlock it only when they have won it,
-- at most one owns it. While it does, the context that it gave to `Lock` has not ended, and its goroutine
-- has a turn within `dur / 7` of the last one, the key expires only after the time by which the next turn is
-- due, and the goroutine is there, with its context not over. Redis is taken to expire keys as documented,
-- and to renew one that is there whenever it is asked to.
pub lease_kept :
    {R : Type 0} {client : Client R} {key dur : ℕ} {deadline : R → Option ℕ} {time : R → ℕ}
    {wait : R → ℕ → R} {x : Leased R}
    → IsExpiring client key deadline time wait
    → 7 ≤ dur
    → Reach client key dur time wait x
    → (i j : ℕ) → x.system.owns i ≡ true
    → x.system.owns j ≡ true
    → (i ≡ j)
      × IsLive x.over (x.system.dogs i)
      × ((d : ℕ) × (deadline x.system.redis ≡ some d)
          × (time x.system.redis ≤ x.due i)
          × (x.due i < d))
lease_kept law long reached i j mine yours =
    let h = Reach-IsKept law long reached in
    let (d, there, after, before, near) = h.lasts i mine in
    (h.one i j mine yours, h.lives i mine, (d, there, before, after))
