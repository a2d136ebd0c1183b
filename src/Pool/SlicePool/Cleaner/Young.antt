-- ===== src/Pool/SlicePool/Cleaner/Young.antt =====
-- onepool/slice.go: what the operations under the lock do to the age of the free items.
use mathlib.Core.HLevel.{hedberg}
use mathlib.Core.Bool.{Bool-discrete}
use mathlib.Core.List.{Perm, foldr}
use mathlib.Core.List.Perm
use eins.Prelude.{
  ℕ, zero, suc, ◌≡◌, refl, ◌∙◌, Bool, true, false, ◌&&◌, Option, none, some, List, [], ◌∷◌, ◌++◌,
  get_elem?, keep_if, arith, Option-cases, Bool-cases, ◌⊎◌, inl, inr,
}
use eins.Prelude.Int.{ℤ, pos, ◌+ℤ◌, ◌-ℤ◌, leb_ℤ, ◌≤ℤ◌}
use eins.Pool.{Item, Config}
use eins.Pool.SlicePool.{SlicePool, release, place_item, put_item, or_close, put, open_new_item}
use eins.Pool.SlicePool.Session.{
  Session, outside, evicted, waiting, replacing, dial_failed, holding, failed, Choice, get, proceed,
  put_back, session_step, request, pop_free, get_entry, select_item, Opener, listening, opener_take,
}
use eins.Pool.SlicePool.Requests.{release-Untouched}
use eins.Pool.SlicePool.Cleaning.{stale, fresh}

-- At the time `at` the item is not older than `life`.
abbrev young : ℤ → ℤ → Item → Bool
young at life i = leb_ℤ at (pos i.created_at +ℤ life)

abbrev pub all_young : ℤ → ℤ → List Item → Bool
all_young at life is = foldr (λ (i : Item) (rest : Bool). young at life i && rest) true is

all_young-append :
    (at life : ℤ) (is : List Item) (i : Item)
    → all_young at life is ≡ true
    → young at life i ≡ true
    → all_young at life (is ++ i ∷ []) ≡ true
all_young-append at life [] i h e = ground arith
all_young-append at life (j ∷ is) i h e = ground (arith, all_young-append at life is i)

-- The order of the items does not matter.
pub all_young-Perm :
    (at life : ℤ) {is js : List Item} → Perm is js → all_young at life is ≡ all_young at life js
all_young-Perm at life p =
    Perm.foldr-eq (hedberg Bool-discrete) (λ (i : Item) (rest : Bool). young at life i && rest)
      swaps p true
  where
    swaps :
        (i j : Item) (rest : Bool)
        → (young at life i && (young at life j && rest))
          ≡ (young at life j && (young at life i && rest))
    swaps i j rest = ground arith

leb_ℤ-holds : (a b : ℤ) → a ≤ℤ b → leb_ℤ a b ≡ true
leb_ℤ-holds a b h = ground arith

fresh-young :
    (now : ℕ) (d wait : ℤ) (i : Item)
    → fresh now d i ≡ true
    → young (pos now +ℤ wait) (d +ℤ wait) i ≡ true
unfolding stale
fresh-young now d wait i h =
    let kept : pos now -ℤ d ≤ℤ pos i.created_at = ground arith in
    let still : pos now +ℤ wait ≤ℤ pos i.created_at +ℤ (d +ℤ wait) = ground arith in
    leb_ℤ-holds (pos now +ℤ wait) (pos i.created_at +ℤ (d +ℤ wait)) still

-- What a pass keeps is young still when the next one comes.
pub all_young-fresh :
    (now : ℕ) (d wait : ℤ) (is : List Item)
    → all_young (pos now +ℤ wait) (d +ℤ wait) (keep_if (fresh now d) is) ≡ true
all_young-fresh now d wait [] = refl
all_young-fresh now d wait (i ∷ is) = elim (Bool-cases (fresh now d i)) [
  | inl kept ↦ ground (arith, fresh-young now d wait i kept, all_young-fresh now d wait is)
  | inr old ↦ ground (arith, all_young-fresh now d wait is)
]

pub all_young-at :
    (at life : ℤ) (is : List Item) (k : ℕ) {i : Item}
    → all_young at life is ≡ true
    → get_elem? is k ≡ some i
    → at ≤ℤ pos i.created_at +ℤ life
all_young-at at life [] k h e = ground arith
all_young-at at life (j ∷ is) zero h e = ground arith
all_young-at at life (j ∷ is) (suc k) h e = all_young-at at life is k (ground arith) e

-- The free items of a pool that is open, or was closed, as `shut` tells: they are young at the time `at`,
-- and a closed pool has none.
pub record IsYoung (shut : Bool) (conf : Config) (at life : ℤ) (p : SlicePool) : Type 0 where
  pub same_closed : p.closed ≡ shut
  pub same_conf : p.conf ≡ conf
  pub young_free : all_young at life p.free ≡ true
  pub none_shut : (shut ≡ false) ⊎ (p.free ≡ [])

module _ {shut : Bool} {conf : Config} {at life : ℤ} where
  release-IsYoung :
      (p : SlicePool) → IsYoung shut conf at life p → IsYoung shut conf at life (release p)
  release-IsYoung p h =
      let same = release-Untouched p in
      record {
        same_closed = same.closed ∙ h.same_closed;
        same_conf = same.conf ∙ h.same_conf;
        young_free = rw same.free h.young_free;
        none_shut = rw same.free h.none_shut;
      }

  request-IsYoung :
      (p : SlicePool) (timeout : ℤ)
      → IsYoung shut conf at life p
      → IsYoung shut conf at life (request p timeout).pool
  unfolding request
  request-IsYoung p timeout h = ground (arith, h)

  pop_free-IsYoung :
      (p : SlicePool) (timeout : ℤ) (free : List Item)
      → p.free ≡ free
      → IsYoung shut conf at life p
      → IsYoung shut conf at life (pop_free p timeout free).pool
  unfolding pop_free
  pop_free-IsYoung p timeout [] e h = request-IsYoung p timeout h
  pop_free-IsYoung p timeout (i ∷ free) e h = record {
    same_closed = h.same_closed;
    same_conf = h.same_conf;
    young_free = let y = rw e at h.young_free in ground arith;
    none_shut = let n = rw e at h.none_shut in ground arith;
  }

  get_entry-IsYoung :
      (p : SlicePool) → IsYoung shut conf at life p → IsYoung shut conf at life (get_entry p).pool
  unfolding get_entry
  get_entry-IsYoung p h = ground (arith, h, pop_free-IsYoung p p.conf.idle_timeout p.free refl h)

  select_item-IsYoung :
      (p : SlicePool) (timeout : ℤ) (key : ℕ)
      → IsYoung shut conf at life p
      → IsYoung shut conf at life (select_item p timeout key).pool
  unfolding select_item
  select_item-IsYoung p timeout key h = ground (arith, h)

  place_item-IsYoung :
      (p : SlicePool) (pick : ℕ) (i : Item) (keys : List ℕ) {q : SlicePool}
      → p.closed ≡ false
      → young at life i ≡ true
      → IsYoung shut conf at life p
      → place_item p pick i keys ≡ some q
      → IsYoung shut conf at life q
  unfolding place_item
  place_item-IsYoung p pick i keys opened e h taken =
      ground (arith, h, all_young-append at life p.free i)

  module _ (now : ℕ) (fits : at ≤ℤ pos now +ℤ life) where
    put_item-IsYoung :
        (p : SlicePool) (pick c : ℕ) {q : SlicePool}
        → IsYoung shut conf at life p
        → put_item p now pick c ≡ some q
        → IsYoung shut conf at life q
    unfolding put_item
    put_item-IsYoung p pick c {q} h taken =
        let i : Item = record { created_at = now; c = c } in
        let placed : p.closed ≡ false
            → place_item p pick i p.requests ≡ some q
            → IsYoung shut conf at life q =
          λ opened e.
            place_item-IsYoung p pick i p.requests opened (leb_ℤ-holds at (pos now +ℤ life) fits) h
              e in
        ground (arith, placed)

    or_close-IsYoung :
        (p : SlicePool) (pick c : ℕ)
        → IsYoung shut conf at life p
        → IsYoung shut conf at life (or_close p c (put_item p now pick c)).pool
    or_close-IsYoung p pick c h = elim (Option-cases (put_item p now pick c)) [
      | inl refused ↦ rw refused (ground (arith, h))
      | inr (q, taken) ↦ rw taken (put_item-IsYoung p pick c h taken)
    ]

    put-IsYoung :
        (p : SlicePool) (pick c : ℕ) (force_close : Bool)
        → IsYoung shut conf at life p
        → IsYoung shut conf at life (put p now pick c force_close).pool
    unfolding put
    put-IsYoung p pick c true h = release-IsYoung p h
    put-IsYoung p pick c false h = or_close-IsYoung p pick c h

    pub open_new_item-IsYoung :
        (p : SlicePool) (pick : ℕ) (result : Option ℕ)
        → IsYoung shut conf at life p
        → IsYoung shut conf at life (open_new_item p now pick result).pool
    unfolding open_new_item
    open_new_item-IsYoung p pick none h = release-IsYoung p h
    open_new_item-IsYoung p pick (some c) h = or_close-IsYoung p pick c h

    pub session_step-IsYoung :
        (p : SlicePool) (s : Session) (c : Choice)
        → IsYoung shut conf at life p
        → IsYoung shut conf at life (session_step p now s c).pool
    unfolding session_step
    session_step-IsYoung p outside get h = get_entry-IsYoung p h
    session_step-IsYoung p (failed e) get h = get_entry-IsYoung p h
    session_step-IsYoung p (evicted timeout) proceed h =
        pop_free-IsYoung (release p) timeout (release p).free refl (release-IsYoung p h)
    session_step-IsYoung p (waiting timeout key) proceed h = select_item-IsYoung p timeout key h
    session_step-IsYoung p replacing proceed h = ground (arith, release-IsYoung p h)
    session_step-IsYoung p (dial_failed e) proceed h = release-IsYoung p h
    session_step-IsYoung p (holding c) (put_back pick force) h = put-IsYoung p pick c force h
    session_step-IsYoung p s c h = ground (arith, h)

  pub opener_take-IsYoung :
      (p : SlicePool) (o : Opener)
      → IsYoung shut conf at life p
      → IsYoung shut conf at life (opener_take p o).0
  unfolding opener_take
  opener_take-IsYoung p listening h = ground (arith, h)
  opener_take-IsYoung p o h = h
