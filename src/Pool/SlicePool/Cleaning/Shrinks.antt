-- ===== src/Pool/SlicePool/Cleaning/Shrinks.antt =====
-- onepool/slice.go: a pass of `staleCleaner` never raises `active`.
use eins.Prelude.{
  ℕ, zero, suc, ◌≡◌, ap, Bool, true, false, List, [], length, get_elem?, arith, Option-cases, inl,
  inr,
}
use eins.Prelude.Int.{ℤ, ◌≤ℤ◌}
use eins.Pool.{Item}
use eins.Pool.SlicePool.{SlicePool}
use eins.Pool.SlicePool.Cleaning.{stale, Loop, clean_round, clean_loop, clean_pass}

clean_round-le : (l : Loop) (c : Item) (old : Bool) → (clean_round l c old).active ≤ℤ l.active
unfolding clean_round
clean_round-le l c true = ground arith
clean_round-le l c false = ground arith

clean_loop-le : (fuel now : ℕ) (d : ℤ) (l : Loop) → (clean_loop fuel now d l).active ≤ℤ l.active
unfolding clean_loop
clean_loop-le zero now d l = omega arith
clean_loop-le (suc fuel) now d l = elim (Option-cases (get_elem? l.free l.i)) [
  | inl e ↦ rw (e, clean_loop) (omega arith)
  | inr (c, e) ↦
      rw (e, clean_loop)
        (omega (
          arith,
          clean_loop-le fuel now d (clean_round l c (stale now d c)),
          clean_round-le l c (stale now d c),
        ))
]

pub clean_pass-le :
    (p : SlicePool) (now : ℕ)
    → let q = (clean_pass p now).0.pool in (q.active ≤ℤ p.active) × (q.conf ≡ p.conf)
unfolding clean_pass
clean_pass-le p now = ground (
  arith,
  clean_loop-le (length p.free) now p.conf.idle_timeout
      (record { i = 0; free = p.free; closing = []; active = p.active }),
)

-- Without free items a pass leaves the pool as it was.
pub clean_pass_empty :
    (p : SlicePool) (now : ℕ)
    → p.free ≡ []
    → let q = (clean_pass p now).0.pool in (q.free ≡ []) × (q.active ≡ p.active)
unfolding clean_pass clean_loop
clean_pass_empty p now e =
    let loop = λ (free : List Item).
      clean_loop (length free) now p.conf.idle_timeout
        (record { i = 0; free = free; closing = []; active = p.active }) in
    let none_left : loop p.free ≡ loop [] = ap loop e in ground (arith, none_left)

-- What a pass never touches.
pub clean_pass-requests :
    (p : SlicePool) (now : ℕ)
    → let q = (clean_pass p now).0.pool in
      (q.closed ≡ p.closed) × (q.requests ≡ p.requests) × (q.conf ≡ p.conf)
unfolding clean_pass
clean_pass-requests p now = ground arith
