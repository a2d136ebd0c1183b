-- ===== src/Pool/Order.antt =====
-- onepool: what one goroutine sees of a pool that it puts items into and takes them from: a bounded stack, or
-- a bounded queue.
use eins.Prelude.{
  ℕ, ◌≡◌, sym, ap, arith, Option, none, some, List, [], ◌∷◌, ◌++◌, length, take, ltb, if◌then◌else◌,
}

-- A `Put` of an item, and a `Get`.
pub data Call : Type 0 where
  puts : ℕ → Call
  takes : Call

abbrev pub after_take : ℕ → Option (List ℕ × List ℕ) → Option (List ℕ × List ℕ)
after_take x none = none
after_take x (some (got, s)) = some (x ∷ got, s)

-- The items that are taken, and those that stay, where `push` puts an item to those that are there and the
-- one in front is taken. `none` is a take from nothing.
abbrev pub replay : (List ℕ → ℕ → List ℕ) → List ℕ → List Call → Option (List ℕ × List ℕ)
replay push s [] = some ([], s)
replay push s (puts c ∷ cs) = replay push (push s c) cs
replay push [] (takes ∷ cs) = none
replay push (x ∷ s) (takes ∷ cs) = after_take x (replay push s cs)

-- A stack that forgets the oldest item beyond `cap`, and a queue that refuses one beyond `cap`.
abbrev pub stack_push : ℕ → List ℕ → ℕ → List ℕ
stack_push cap s c = take cap (c ∷ s)

abbrev pub queue_push : ℕ → List ℕ → ℕ → List ℕ
queue_push cap s c = if ltb (length s) cap then s ++ c ∷ [] else s

pub after_take-some :
    (x : ℕ) (o : Option (List ℕ × List ℕ)) {got s : List ℕ}
    → after_take x o ≡ some (got, s)
    → (later : List ℕ) × (got ≡ x ∷ later) × (o ≡ some (later, s))
after_take-some x none e = ground arith
after_take-some x (some (later, t)) {got} {s} e =
    let same : (x ∷ later, t) ≡ (got, s) = ground arith in
    (
      later,
      sym (ap (λ (r : List ℕ × List ℕ). r.0) same),
      ap (λ (r : List ℕ × List ℕ). some (later, r.1)) same,
    )
