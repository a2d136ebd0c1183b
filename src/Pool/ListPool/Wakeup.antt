-- ===== src/Pool/ListPool/Wakeup.antt =====
-- onepool/list.go: whom the signal of a `Put` reaches.
use eins.Prelude.{ℕ, suc, ◌≡◌, ◌≢◌, ◌<◌, Bool, true, false, ◌∷◌, length, arith}
use eins.Prelude.Int.{pos, ◌≤ℤ◌}
use eins.Prelude.Family.{update}
use eins.Pool.ListPool.{put}
use eins.Pool.ListPool.Session.{
  outside, parking, waiting, woken, holding, proceed, put_back, session_step,
}
use eins.Pool.ListPool.System.{System, Step, runs, Fits, after_turn}

put_signals :
    (s : System) (now c : ℕ) (force_close : Bool) → (put s.pool now c force_close).signals ≡ true
unfolding put
put_signals s now c force_close = ground arith

-- If a goroutine waits, the `Put` of another one wakes a goroutine, whether it keeps the item or
-- closes it.
put_wakes :
    {n : ℕ} (s : System) (i j k now c : ℕ) (force_close : Bool)
    → i ≢ k
    → k < n
    → s.sessions i ≡ holding c
    → s.sessions k ≡ waiting
    → Fits n (update s.sessions i outside) j
    → (after_turn s i j (session_step s.pool now (s.sessions i) (put_back force_close))).sessions j
      ≡ woken
unfolding session_step
put_wakes s i j k now c force_close ne hk held waits fits =
    ground (arith, put_signals s now c force_close, fits k hk)

-- A signal that comes between the unlocking of the pool by a `Get` and its `select` is lost: with no
-- other goroutine waiting, the `Get` then waits while the item that was put back lies idle.
pub lost_wakeup :
    (n : ℕ) (s : System) (i j now c : ℕ)
    → i < n
    → j < n
    → i ≢ j
    → s.sessions i ≡ parking
    → s.sessions j ≡ holding c
    → ((k : ℕ) → k < n → s.sessions k ≢ waiting)
    → s.pool.closed ≡ false
    → pos (suc (length s.pool.idles)) ≤ℤ s.pool.conf.idle
    → (u t : System) × Step n s u
      × Step n u t
      × (t.sessions i ≡ waiting)
      × (t.pool.idles ≡ record { created_at = now; c = c } ∷ s.pool.idles)
unfolding session_step put
lost_wakeup n s i j now c hi hj ne parks held nobody opened room =
    let u = after_turn s j j (session_step s.pool now (s.sessions j) (put_back false)) in
    (
      u,
      after_turn u i i (session_step u.pool now (u.sessions i) proceed),
      runs j j now (put_back false) hj hj (λ k hk w. ground (arith, nobody k hk)),
      runs i i now proceed hi hi (λ k hk w. ground arith),
      ground arith,
      ground arith,
    )
