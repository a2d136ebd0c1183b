-- ===== src/Pool/ListPool/Stack.antt =====
-- onepool/list.go: in which order one goroutine gets the items that it puts back.
use eins.Prelude.{
  ℕ, zero, suc, ◌*◌, ◌≡◌, ◌≤◌, refl, ap, ◌∙◌, false, some, List, [], ◌∷◌, ◌++◌, length, take,
  split_back, length-split_back, arith,
}
use eins.Prelude.Int.{pos, ◌≤ℤ◌}
use eins.Pool.{Item, expired}
use eins.Pool.Order.{Call, puts, takes, replay, stack_push, after_take-some}
use eins.Pool.ListPool.{ListPool, put, shelve, conns}
use eins.Pool.ListPool.Session.{Session, holding}
use eins.Pool.ListPool.Alone.{get_alone, get_alone_fresh, dropped}

abbrev got : Session → List ℕ
got (holding c) = c ∷ []
got _ = []

-- The calls of one goroutine, when no other runs: the items that its `Get`s return, and the pool.
unfoldable pub run : ℕ → ListPool → List Call → List ℕ × ListPool
run now p [] = ([], p)
run now p (puts c ∷ cs) = run now (put p now c false).pool cs
run now p (takes ∷ cs) =
    let g = get_alone (suc (2 * length p.idles)) now p in
    let (rest, q) = run now g.pool cs in (got g.session ++ rest, q)

-- An open pool with room for `cap` idle items, which never expire.
pub record IsStack (cap : ℕ) (p : ListPool) : Type 0 where
  pub opened : p.closed ≡ false
  pub room : p.conf.idle ≡ pos cap
  pub timeless : p.conf.idle_timeout ≤ℤ pos 0
  pub bounded : length p.idles ≤ cap

take_whole : (n : ℕ) (xs : List ℕ) → length xs ≤ n → take n xs ≡ xs
take_whole zero [] h = refl
take_whole zero (x ∷ xs) h = absurd (omega arith)
take_whole (suc n) [] h = refl
take_whole (suc n) (x ∷ xs) h = ap (λ (ys : List ℕ). x ∷ ys) (take_whole n xs (omega arith))

length-conns : (is : List Item) → length (conns is) ≡ length is
length-conns [] = refl
length-conns (i ∷ is) = omega (arith, length-conns is)

conns-split_back :
    (x : Item) (xs : List Item) → conns (split_back x xs).0 ≡ take (length xs) (conns (x ∷ xs))
conns-split_back x [] = refl
conns-split_back x (y ∷ ys) = ap (λ (cs : List ℕ). x.c ∷ cs) (conns-split_back y ys)

-- A take that succeeds has an item in front.
taken_from :
    (push : List ℕ → ℕ → List ℕ) (idles : List Item) (cs : List Call) {taken rest : List ℕ}
    → replay push (conns idles) (takes ∷ cs) ≡ some (taken, rest)
    → (y : Item) × (ys : List Item) × (idles ≡ y ∷ ys)
      × (later : List ℕ) × (taken ≡ y.c ∷ later)
      × (replay push (conns ys) cs ≡ some (later, rest))
taken_from push [] cs e = ground arith
taken_from push (y ∷ ys) cs e =
    let (later, taken_first, left) = after_take-some y.c (replay push (conns ys) cs) e in
    (y, ys, refl, later, taken_first, left)

module _ {cap : ℕ} where
  put-IsStack :
      (p : ListPool) (now c : ℕ)
      → IsStack cap p
      → IsStack cap (put p now c false).pool
        × (conns (put p now c false).pool.idles ≡ stack_push cap (conns p.idles) c)
  unfolding put shelve
  put-IsStack p now c h =
      let i : Item = record { created_at = now; c = c } in
      let cut : length p.idles ≡ cap
          → conns (split_back i p.idles).0 ≡ take cap (c ∷ conns p.idles) =
        λ e. conns-split_back i p.idles ∙ ap (λ (n : ℕ). take n (c ∷ conns p.idles)) e in
      let whole : suc (length p.idles) ≤ cap → take cap (c ∷ conns p.idles) ≡ c ∷ conns p.idles =
        λ e. take_whole cap (c ∷ conns p.idles) (omega (arith, length-conns p.idles)) in
      ground (arith, h, cut, whole, length-split_back i p.idles)

  timeless_fresh :
      (p : ListPool) (now : ℕ) (i : Item)
      → IsStack cap p
      → expired now p.conf.idle_timeout i ≡ false
  unfolding expired
  timeless_fresh p now i h = ground (arith, h.timeless)

  dropped-IsStack :
      (p : ListPool) (y : Item) (ys : List Item)
      → p.idles ≡ y ∷ ys
      → IsStack cap p
      → IsStack cap (dropped p 0 ys)
  dropped-IsStack p y ys e h = record {
    opened = h.opened;
    room = h.room;
    timeless = h.timeless;
    bounded = omega (arith, h.bounded, ap length e);
  }

  -- While the calls take nothing from an empty stack, the pool of one goroutine is a bounded stack: its
  -- `Get`s return the items in the order of the stack, and the idle items are those on it.
  pub run-stack :
      (p : ListPool) (now : ℕ) (cs : List Call) {taken rest : List ℕ}
      → IsStack cap p
      → replay (stack_push cap) (conns p.idles) cs ≡ some (taken, rest)
      → ((run now p cs).0 ≡ taken) × (conns (run now p cs).1.idles ≡ rest)
  unfolding run
  run-stack p now [] {taken} {rest} h e =
      let same : ([], conns p.idles) ≡ (taken, rest) = ground arith in
      (ap (λ (r : List ℕ × List ℕ). r.0) same, ap (λ (r : List ℕ × List ℕ). r.1) same)
  run-stack p now (puts c ∷ cs) h e =
      let (h', pushed) = put-IsStack p now c h in
      run-stack (put p now c false).pool now cs h'
        (ap (λ (s : List ℕ). replay (stack_push cap) s cs) pushed ∙ e)
  run-stack p now (takes ∷ cs) {taken} {rest} h e =
      let (y, ys, here, later, taken_first, left) = taken_from (stack_push cap) p.idles cs e in
      let first =
        get_alone_fresh p now (suc (2 * length p.idles)) [] ys y h.opened here tt
          (timeless_fresh p now y h) (omega arith) in
      let (same, stays) = run-stack (dropped p 0 ys) now cs (dropped-IsStack p y ys here h) left in
      rw (first, taken_first) (ap (λ (xs : List ℕ). y.c ∷ xs) same, stays)
