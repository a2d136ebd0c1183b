-- ===== src/Pool/SlicePool/Cleaning/Sums.antt =====
-- onepool/slice.go: the pass of `staleCleaner` loses no item and counts what it closes.
use mathlib.Core.List.{map-append}
use eins.Prelude.{
  sym, ℕ, zero, suc, ◌+◌, ◌≡◌, ◌≤◌, refl, ap, ◌∙◌, List, [], ◌∷◌, ◌++◌, length, length-append,
  split_back, arith, Bool-cases, inl, inr, count, count-append,
}
use eins.Prelude.Int.{ℤ, pos, ◌-ℤ◌}
use eins.Pool.{Item}
use eins.Pool.SlicePool.{SlicePool, conns}
use eins.Pool.SlicePool.Cleaning.{
  stale, Loop, clean_loop, clean_pass, spin, length-spin, at_place, clean_loop_end, clean_loop_old,
  clean_loop_young,
}

module _ (a : ℕ) where
  count-split_back :
      (x : Item) (xs : List Item)
      → let r = split_back x xs in count a (conns (r.1 ∷ r.0)) ≡ count a (conns (x ∷ xs))
  count-split_back x [] = refl
  count-split_back x (y ∷ ys) = omega (arith, count-split_back y ys)

  count-spin : (ys : List Item) → count a (conns (spin ys)) ≡ count a (conns ys)
  count-spin [] = refl
  count-spin (y ∷ ys) = count-split_back y ys

  count-conns :
      (xs ys : List Item) → count a (conns (xs ++ ys)) ≡ count a (conns xs) + count a (conns ys)
  count-conns xs ys =
      rw (map-append (λ (i : Item). i.c) xs ys) (sym (count-append a (conns xs) (conns ys)))

  -- What the loop does to sizes and counts, from a place with `before` behind it and `rest` ahead.
  record Sums (before rest shut : List Item) (active : ℤ) (l : Loop) : Type 0 where
    counts :
        count a (conns l.free) + count a (conns l.closing)
        ≡ count a (conns before) + count a (conns rest) + count a (conns shut)
    counted :
        (k : ℕ)
        → active ≡ pos (length before + length rest + k)
        → l.active ≡ pos (length l.free + k)

  clean_loop-Sums :
      (fuel now : ℕ) (d : ℤ) (before rest shut : List Item) (active : ℤ)
      → length rest ≤ fuel
      → Sums before rest shut active (clean_loop fuel now d (at_place before rest shut active))
  clean_loop-Sums fuel now d before [] shut active h =
      rw (clean_loop_end fuel now d before shut active) (record {
        counts = omega (arith, count-conns before []);
        counted = λ k e. e ∙ ap pos (omega (arith, length-append before []));
      })
  clean_loop-Sums zero now d before (x ∷ rest) shut active h = absurd (omega arith)
  clean_loop-Sums (suc fuel) now d before (x ∷ rest) shut active h =
      elim (Bool-cases (stale now d x)) [
        | inl old ↦
            let ih =
              clean_loop-Sums fuel now d before (spin rest) (shut ++ x ∷ []) (active -ℤ pos 1)
                (omega (arith, length-spin rest)) in
            rw (clean_loop_old fuel now d before x rest shut active old) (record {
              counts = omega (arith, ih.counts, count-spin rest, count-conns shut (x ∷ []));
              counted = λ k e. ih.counted k (ground (arith, length-spin rest));
            })
        | inr young ↦
            let ih = clean_loop-Sums fuel now d (before ++ x ∷ []) rest shut active (omega arith) in
            rw (clean_loop_young fuel now d before x rest shut active young) (record {
              counts = omega (arith, ih.counts, count-conns before (x ∷ []));
              counted =
                  λ k e. ih.counted k (e ∙ ap pos (omega (arith, length-append before (x ∷ []))));
            })
      ]

  pub clean_pass-counts :
      (p : SlicePool) (now : ℕ)
      → let r = (clean_pass p now).0 in
        count a (conns r.pool.free) + count a r.closes ≡ count a (conns p.free)
  unfolding clean_pass
  clean_pass-counts p now = ground (
    arith,
    (clean_loop-Sums (length p.free) now p.conf.idle_timeout [] p.free [] p.active
        (omega arith)).counts,
  )

pub clean_pass-counted :
    (p : SlicePool) (now k : ℕ)
    → p.active ≡ pos (length p.free + k)
    → let r = (clean_pass p now).0 in r.pool.active ≡ pos (length r.pool.free + k)
unfolding clean_pass
clean_pass-counted p now k h = ground (
  arith,
  (clean_loop-Sums 0 (length p.free) now p.conf.idle_timeout [] p.free [] p.active
        (omega arith)).counted
      k (h ∙ ap pos (omega arith)),
)
