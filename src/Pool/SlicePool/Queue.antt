-- ===== src/Pool/SlicePool/Queue.antt =====
-- onepool/slice.go: in which order one goroutine gets the items that it puts back.
use eins.Prelude.{ℕ, suc, ◌≡◌, refl, ap, ◌∙◌, false, some, List, [], ◌∷◌, ◌++◌, length, arith, ◌⊎◌}
use eins.Prelude.Int.{pos, ◌≤ℤ◌}
use eins.Pool.{Item, expired}
use eins.Pool.Order.{Call, puts, takes, replay, queue_push, after_take-some}
use eins.Pool.SlicePool.{SlicePool, max_idle, place_item, put_item, put, conns}
use eins.Pool.SlicePool.Session.{
  Session, outside, popped, holding, Turn, quiet, get, proceed, session_step, get_entry, pop_free,
}

abbrev got : Session → List ℕ
got (holding c) = c ∷ []
got _ = []

-- A `Get` by a goroutine that finds a free item: its entry, and the look at the age.
unfoldable pub get_free : ℕ → SlicePool → Turn
unfolding session_step
get_free now p = let t = session_step p now outside get in session_step t.pool now t.session proceed

-- The calls of one goroutine, when no other runs: the items that its `Get`s return, and the pool.
unfoldable pub run : ℕ → SlicePool → List Call → List ℕ × SlicePool
unfolding get_free
run now p [] = ([], p)
run now p (puts c ∷ cs) = run now (put p now 0 c false).pool cs
run now p (takes ∷ cs) =
    let t = get_free now p in let (rest, q) = run now t.pool cs in (got t.session ++ rest, q)

-- An open pool with room for `cap` free items, which never expire, without requests and within its limit,
-- if it has one.
pub record IsQueue (cap : ℕ) (p : SlicePool) : Type 0 where
  pub opened : p.closed ≡ false
  pub room : max_idle p.conf ≡ cap
  pub timeless : p.conf.idle_timeout ≤ℤ pos 0
  pub nobody_waits : p.requests ≡ []
  pub within : (p.conf.active ≤ℤ pos 0) ⊎ (p.active ≤ℤ p.conf.active)

conns-append : (xs : List Item) (i : Item) → conns (xs ++ i ∷ []) ≡ conns xs ++ i.c ∷ []
conns-append [] i = refl
conns-append (x ∷ xs) i = ap (λ (cs : List ℕ). x.c ∷ cs) (conns-append xs i)

length-conns : (xs : List Item) → length (conns xs) ≡ length xs
length-conns [] = refl
length-conns (x ∷ xs) = ap suc (length-conns xs)

-- A take that succeeds has an item in front.
taken_from :
    (push : List ℕ → ℕ → List ℕ) (free : List Item) (cs : List Call) {taken rest : List ℕ}
    → replay push (conns free) (takes ∷ cs) ≡ some (taken, rest)
    → (y : Item) × (ys : List Item) × (free ≡ y ∷ ys)
      × (later : List ℕ) × (taken ≡ y.c ∷ later)
      × (replay push (conns ys) cs ≡ some (later, rest))
taken_from push [] cs e = ground arith
taken_from push (y ∷ ys) cs e =
    let (later, taken_first, left) = after_take-some y.c (replay push (conns ys) cs) e in
    (y, ys, refl, later, taken_first, left)

get_entry-front :
    (p : SlicePool) (y : Item) (ys : List Item)
    → p.free ≡ y ∷ ys
    → p.closed ≡ false
    → get_entry p ≡ quiet (record p { free = ys }) (popped p.conf.idle_timeout y)
unfolding get_entry
get_entry-front p y ys e opened =
    let first : pop_free p p.conf.idle_timeout p.free
        ≡ quiet (record p { free = ys }) (popped p.conf.idle_timeout y) =
      ap (pop_free p p.conf.idle_timeout) e in
    ground (arith, opened, first)

module _ {cap : ℕ} where
  put-IsQueue :
      (p : SlicePool) (now c : ℕ)
      → IsQueue cap p
      → IsQueue cap (put p now 0 c false).pool
        × (conns (put p now 0 c false).pool.free ≡ queue_push cap (conns p.free) c)
  unfolding put put_item place_item
  put-IsQueue p now c h =
      let i : Item = record { created_at = now; c = c } in
      let placed : place_item p 0 i p.requests ≡ place_item p 0 i [] =
        ap (place_item p 0 i) h.nobody_waits in
      ground (arith, h, placed, conns-append p.free i, length-conns p.free)

  timeless_fresh :
      (p : SlicePool) (now : ℕ) (i : Item)
      → IsQueue cap p
      → expired now p.conf.idle_timeout i ≡ false
  unfolding expired
  timeless_fresh p now i h = ground (arith, h.timeless)

  get_free-front :
      (p : SlicePool) (now : ℕ) (y : Item) (ys : List Item)
      → p.free ≡ y ∷ ys
      → IsQueue cap p
      → get_free now p ≡ quiet (record p { free = ys }) (holding y.c)
  unfolding get_free session_step
  get_free-front p now y ys e h =
      rw (get_entry-front p y ys e h.opened) (ground (arith, timeless_fresh p now y h))

  front-IsQueue :
      (p : SlicePool) (ys : List Item) → IsQueue cap p → IsQueue cap (record p { free = ys })
  front-IsQueue p ys h = ground (arith, h)

  -- While the calls take nothing from an empty queue, the pool of one goroutine is a bounded queue: its
  -- `Get`s return the items in the order of the queue, and the free items are those in it.
  pub run-queue :
      (p : SlicePool) (now : ℕ) (cs : List Call) {taken rest : List ℕ}
      → IsQueue cap p
      → replay (queue_push cap) (conns p.free) cs ≡ some (taken, rest)
      → ((run now p cs).0 ≡ taken) × (conns (run now p cs).1.free ≡ rest)
  unfolding run
  run-queue p now [] {taken} {rest} h e =
      let same : ([], conns p.free) ≡ (taken, rest) = ground arith in
      (ap (λ (r : List ℕ × List ℕ). r.0) same, ap (λ (r : List ℕ × List ℕ). r.1) same)
  run-queue p now (puts c ∷ cs) h e =
      let (h', pushed) = put-IsQueue p now c h in
      run-queue (put p now 0 c false).pool now cs h'
        (ap (λ (s : List ℕ). replay (queue_push cap) s cs) pushed ∙ e)
  run-queue p now (takes ∷ cs) {taken} {rest} h e =
      let (y, ys, here, later, taken_first, left) = taken_from (queue_push cap) p.free cs e in
      let (same, stays) = run-queue (record p { free = ys }) now cs (front-IsQueue p ys h) left in
      rw (get_free-front p now y ys here h, taken_first)
        (ap (λ (xs : List ℕ). y.c ∷ xs) same, stays)
