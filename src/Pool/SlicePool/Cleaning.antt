-- ===== src/Pool/SlicePool/Cleaning.antt =====
-- onepool/slice.go: the pass of `staleCleaner` over `freeItem`, which fills the place of an expired
-- item with the last one.
pub mod Sums
pub mod Shrinks
use mathlib.Core.List.{Perm, perm_middle, append_assoc, append-nil}
use mathlib.Core.List.Perm
use mathlib.Core.Path.{ap₂}
use eins.Prelude.{
  ℕ, zero, suc, ◌+◌, ◌≡◌, ◌≤◌, ◌<◌, refl, sym, ap, ◌∙◌, Bool, true, false, not, Option, none, some,
  List, [], ◌∷◌, ◌++◌, length, length-append, get_elem?, set, take, split_back, keep_if,
  length-split_back, if◌then◌else◌, arith, Bool-cases, inl, inr, ◌||◌, ltb,
}
use eins.Prelude.Int.{ℤ, pos, ◌-ℤ◌, ltb_ℤ, leb_ℤ, pos_part, ◌≤ℤ◌}
use eins.Pool.{Item, expired, Config}
use eins.Pool.SlicePool.{SlicePool, Section, conns}

-- `c.createdAt.Before(expiredSince)` with `expiredSince := nowFunc().Add(-d)`.
unfoldable pub stale : ℕ → ℤ → Item → Bool
stale now d c = ltb_ℤ (pos c.created_at) (pos now -ℤ d)

-- `freeItem[i] = freeItem[last]`, and the slice is cut before `last`.
swap_remove : ℕ → List Item → List Item
swap_remove i [] = []
swap_remove i (x ∷ xs) = elim (get_elem? (x ∷ xs) (length xs)) [
  | none ↦ x ∷ xs
  | some last ↦ take (length xs) (set (x ∷ xs) i last)
]

-- The variables of the loop.
pub record Loop : Type 0 where
  pub i : ℕ
  pub free : List Item
  pub closing : List Item
  pub active : ℤ

-- One round at the item `c` in the place `i`.
clean_round : Loop → Item → Bool → Loop
unfolding swap_remove
clean_round l c true = record l {
  free = swap_remove l.i l.free;
  closing = l.closing ++ c ∷ [];
  active = l.active -ℤ pos 1;
}
clean_round l c false = record l { i = suc l.i }

-- The loop `for i := 0; i < len(p.freeItem); i++`, on fuel.
clean_loop : ℕ → ℕ → ℤ → Loop → Loop
unfolding clean_round
clean_loop zero now d l = l
clean_loop (suc fuel) now d l = elim (get_elem? l.free l.i) [
  | none ↦ l
  | some c ↦ clean_loop fuel now d (clean_round l c (stale now d c))
]

-- A pass of `staleCleaner` after it has the lock: the pool, the items that it closes, and whether the
-- goroutine returns.
unfoldable pub clean_pass : SlicePool → ℕ → Section × Bool
unfolding clean_loop
clean_pass p now =
    let d = p.conf.idle_timeout in
    let l =
      clean_loop (length p.free) now d
        (record { i = 0; free = p.free; closing = []; active = p.active }) in
    if p.closed || leb_ℤ d (pos 0) then (record { pool = p; closes = [] }, true) else (
      record { pool = record p { free = l.free; active = l.active }; closes = conns l.closing },
      false,
    )

-- The last item in front of the others.
abbrev spin : List Item → List Item
spin [] = []
spin (y ∷ ys) = let (rest, back) = split_back y ys in back ∷ rest

get_elem?-last :
    (y : Item) (ys : List Item) → get_elem? (y ∷ ys) (length ys) ≡ some (split_back y ys).1
get_elem?-last y [] = refl
get_elem?-last y (z ∷ zs) = get_elem?-last z zs

take-split_back : (y : Item) (ys : List Item) → take (length ys) (y ∷ ys) ≡ (split_back y ys).0
take-split_back y [] = refl
take-split_back y (z ∷ zs) = ap (◌∷◌ y) (take-split_back z zs)

swap_remove-suc :
    (i : ℕ) (d x : Item) (xs : List Item)
    → swap_remove (suc i) (d ∷ x ∷ xs) ≡ d ∷ swap_remove i (x ∷ xs)
unfolding swap_remove
swap_remove-suc i d x xs = ground (arith, get_elem?-last x xs)

-- At an item with `before` in front of it, the round leaves `before` alone.
swap_remove-append :
    (before : List Item) (x : Item) (rest : List Item)
    → swap_remove (length before) (before ++ x ∷ rest) ≡ before ++ spin rest
unfolding swap_remove
swap_remove-append [] x [] = refl
swap_remove-append [] x (y ∷ ys) = ground (arith, get_elem?-last y ys, take-split_back y ys)
swap_remove-append (d ∷ []) x rest =
    swap_remove-suc 0 d x rest ∙ ap (◌∷◌ d) (swap_remove-append [] x rest)
swap_remove-append (d ∷ e ∷ before) x rest =
    swap_remove-suc (suc (length before)) d e (before ++ x ∷ rest)
    ∙ ap (◌∷◌ d) (swap_remove-append (e ∷ before) x rest)

get_elem?-append :
    (before : List Item) (x : Item) (rest : List Item)
    → get_elem? (before ++ x ∷ rest) (length before) ≡ some x
get_elem?-append [] x rest = refl
get_elem?-append (d ∷ before) x rest = get_elem?-append before x rest

get_elem?-end : (before : List Item) → get_elem? (before ++ []) (length before) ≡ none
get_elem?-end [] = refl
get_elem?-end (d ∷ before) = get_elem?-end before

module _ (p : Item → Bool) where
  keep_if-split_back :
      (y : Item) (ys : List Item)
      → let r = split_back y ys in Perm (keep_if p (r.1 ∷ r.0)) (keep_if p (y ∷ ys))
  keep_if-split_back y [] = Perm.refl _
  keep_if-split_back y (z ∷ zs) =
      let r = split_back z zs in
      let ih = keep_if-split_back z zs in
      Perm.trans (swapped r.1 y r.0) (consed y (r.1 ∷ r.0) (z ∷ zs) ih)
    where
      swapped :
          (a b : Item) (xs : List Item) → Perm (keep_if p (a ∷ b ∷ xs)) (keep_if p (b ∷ a ∷ xs))
      swapped a b xs =
          ground (arith, Perm.swap b a (keep_if p xs), Perm.refl (keep_if p (a ∷ b ∷ xs)))

      consed :
          (a : Item) (xs zs : List Item)
          → Perm (keep_if p xs) (keep_if p zs)
          → Perm (keep_if p (a ∷ xs)) (keep_if p (a ∷ zs))
      consed a xs zs h = ground (arith, h, Perm.cons a h)

  keep_if-spin : (ys : List Item) → Perm (keep_if p (spin ys)) (keep_if p ys)
  keep_if-spin [] = Perm.refl []
  keep_if-spin (y ∷ ys) = keep_if-split_back y ys

  length-keep_if-split_back :
      (y : Item) (ys : List Item)
      → let r = split_back y ys in length (keep_if p (r.1 ∷ r.0)) ≡ length (keep_if p (y ∷ ys))
  length-keep_if-split_back y [] = refl
  length-keep_if-split_back y (z ∷ zs) = ground (arith, length-keep_if-split_back z zs)

  length-keep_if-spin : (ys : List Item) → length (keep_if p (spin ys)) ≡ length (keep_if p ys)
  length-keep_if-spin [] = refl
  length-keep_if-spin (y ∷ ys) = length-keep_if-split_back y ys

length-spin : (ys : List Item) → length (spin ys) ≡ length ys
length-spin [] = refl
length-spin (y ∷ ys) = ap suc (length-split_back y ys)

abbrev pub fresh : ℕ → ℤ → Item → Bool
fresh now d i = not (stale now d i)

-- What the loop comes to from a place with `before` behind it and `rest` ahead.
record Cleans (now : ℕ) (d : ℤ) (before rest shut : List Item) (a : ℤ) (l : Loop) : Type 0 where
  kept : Perm l.free (before ++ keep_if (fresh now d) rest)
  shuts : Perm l.closing (shut ++ keep_if (stale now d) rest)
  fewer : l.active ≡ a -ℤ pos (length (keep_if (stale now d) rest))

abbrev at_place : List Item → List Item → List Item → ℤ → Loop
at_place before rest shut a = record {
  i = length before;
  free = before ++ rest;
  closing = shut;
  active = a;
}

clean_loop_end :
    (fuel now : ℕ) (d : ℤ) (before shut : List Item) (a : ℤ)
    → clean_loop fuel now d (at_place before [] shut a) ≡ at_place before [] shut a
unfolding clean_loop
clean_loop_end zero now d before shut a = refl
clean_loop_end (suc fuel) now d before shut a = rw (get_elem?-end before, clean_loop)

clean_loop_old :
    (fuel now : ℕ) (d : ℤ) (before : List Item) (x : Item) (rest shut : List Item) (a : ℤ)
    → stale now d x ≡ true
    → clean_loop (suc fuel) now d (at_place before (x ∷ rest) shut a)
      ≡ clean_loop fuel now d (at_place before (spin rest) (shut ++ x ∷ []) (a -ℤ pos 1))
unfolding clean_loop
clean_loop_old fuel now d before x rest shut a old =
    rw (get_elem?-append before x rest, clean_loop, old, swap_remove-append before x rest)

clean_loop_young :
    (fuel now : ℕ) (d : ℤ) (before : List Item) (x : Item) (rest shut : List Item) (a : ℤ)
    → stale now d x ≡ false
    → clean_loop (suc fuel) now d (at_place before (x ∷ rest) shut a)
      ≡ clean_loop fuel now d (at_place (before ++ x ∷ []) rest shut a)
unfolding clean_loop
clean_loop_young fuel now d before x rest shut a young =
    rw (get_elem?-append before x rest, clean_loop, young)
      (ap₂
        (λ (n : ℕ) xs.
          clean_loop fuel now d (record { i = n; free = xs; closing = shut; active = a }))
        (omega (arith, length-append before (x ∷ []))) (sym (append_assoc before (x ∷ []) rest)))

clean_loop-Cleans :
    (fuel now : ℕ) (d : ℤ) (before rest shut : List Item) (a : ℤ)
    → length rest ≤ fuel
    → Cleans now d before rest shut a (clean_loop fuel now d (at_place before rest shut a))
clean_loop-Cleans fuel now d before [] shut a h =
    rw (clean_loop_end fuel now d before shut a) (record {
      kept = Perm.refl (before ++ []);
      shuts = rw (append-nil shut) (Perm.refl shut);
      fewer = ground arith;
    })
clean_loop-Cleans zero now d before (x ∷ rest) shut a h = absurd (omega arith)
clean_loop-Cleans (suc fuel) now d before (x ∷ rest) shut a h = elim (Bool-cases (stale now d x)) [
  | inl old ↦
      let ih =
        clean_loop-Cleans fuel now d before (spin rest) (shut ++ x ∷ []) (a -ℤ pos 1)
          (omega (arith, length-spin rest)) in
      rw (clean_loop_old fuel now d before x rest shut a old) (record {
        kept =
            rw old (
              Perm.trans ih.kept
                (Perm.append (Perm.refl before) (keep_if-spin (fresh now d) rest)));
        shuts = rw old (
            Perm.trans ih.shuts (
              rw (append_assoc shut (x ∷ []) (keep_if (stale now d) (spin rest)))
                (Perm.append (Perm.refl shut) (Perm.cons x (keep_if-spin (stale now d) rest)))));
        fewer = rw old (ih.fewer ∙ ground (arith, length-keep_if-spin (stale now d) rest));
      })
  | inr young ↦
      let ih = clean_loop-Cleans fuel now d (before ++ x ∷ []) rest shut a (omega arith) in
      rw (clean_loop_young fuel now d before x rest shut a young) (record {
        kept = rw young (rw (append_assoc before (x ∷ []) (keep_if (fresh now d) rest)) at ih.kept);
        shuts = rw young ih.shuts;
        fewer = rw young ih.fewer;
      })
]

-- A pass over an open pool with a positive timeout keeps the items that are not stale, in some order,
-- closes those that are, takes their number off `active`, and leaves the rest of the pool alone.
pub clean_pass_lem :
    (p : SlicePool) (now : ℕ)
    → p.closed ≡ false
    → pos 1 ≤ℤ p.conf.idle_timeout
    → let d = p.conf.idle_timeout in
      let (r, returns) = clean_pass p now in
      (returns ≡ false)
      × Perm r.pool.free (keep_if (fresh now d) p.free)
      × Perm r.closes (conns (keep_if (stale now d) p.free))
      × (r.pool ≡ record p {
        free = r.pool.free;
        active = p.active -ℤ pos (length (keep_if (stale now d) p.free));
      })
unfolding clean_pass
clean_pass_lem p now opened timed =
    let d = p.conf.idle_timeout in
    let goes_on : (p.closed || leb_ℤ d (pos 0)) ≡ false = ground arith in
    let ends = clean_loop-Cleans (length p.free) now d [] p.free [] p.active (omega arith) in
    rw goes_on (refl, ends.kept, Perm.map (λ i. i.c) ends.shuts, ground (arith, ends.fewer))

-- The test of the cleaner is the one by which `Get` throws an item away.
pub stale-expired : (now : ℕ) (d : ℤ) (i : Item) → pos 1 ≤ℤ d → stale now d i ≡ expired now d i
unfolding stale expired
stale-expired now d i h = ground arith
