-- ===== src/Cache/Hits.antt =====
-- onecache/box.go: the loop of `GetMulti` that parts the ids into those that the store has and the others.
use eins.Prelude.{
  ℕ, ◌≡◌, refl, sym, ap, ◌∙◌, Bool, true, false, ◌||◌, Option, none, some, List, [], ◌∷◌, ◌++◌, map,
  arith, ==_iff, Option-cases, inl, inr, if◌then◌else◌, ◌==◌,
}
use mathlib.Core.List.{append_assoc, append-nil}
use mathlib.Core.Path.{ap₂}
use eins.Cache.MultiGet.{id_of-key}
use eins.Cache.Multi.{id_of, hit, miss, part, put_at}

abbrev pub has_id : ℕ → List ℕ → Bool
has_id j [] = false
has_id j (id ∷ ids) = (id == j) || has_id j ids

abbrev pub or_else : {V : Type 0} → Option V → Option V → Option V
or_else (some v) _ = some v
or_else none v = v

abbrev pub unless_some : {V : Type 0} → Option V → ℕ → List ℕ → List ℕ
unless_some none id ids = id ∷ ids
unless_some (some v) id ids = ids

-- The ids whose keys have no value in the store, in their order.
abbrev pub uncached : {V : Type 0} → (ℕ → ℕ) → (ℕ → Option V) → List ℕ → List ℕ
uncached key_of cached [] = []
uncached key_of cached (id ∷ ids) = unless_some (cached (key_of id)) id (uncached key_of cached ids)

module _ (key_of : ℕ → ℕ) (one_key : (i j : ℕ) → key_of i ≡ key_of j → i ≡ j) where
  -- With one key for one id, the id is found again.
  pub id_of_self :
      (ids : List ℕ) (id : ℕ) → has_id id ids ≡ true → id_of key_of ids (key_of id) ≡ some id
  unfolding id_of
  id_of_self [] id h = ground arith
  id_of_self (j ∷ ids) id h = elim (Option-cases (id_of key_of ids (key_of id))) [
    | inl none_later ↦
        ground (arith, none_later, id_of_self ids id, ==_iff j id, ==_iff (key_of j) (key_of id))
    | inr (x, later) ↦ rw later (ap some (one_key x id (id_of-key key_of ids (key_of id) x later)))
  ]

  module _ {V : Type 0} (cached : ℕ → Option V) where
    -- What the loop over the keys leaves in the destination.
    abbrev pub with_hits : List ℕ → (ℕ → Option V) → ℕ → Option V
    with_hits ids dst j = if has_id j ids then or_else (cached (key_of j)) (dst j) else dst j

    part-cons :
        (id_at : ℕ → Option ℕ) (id : ℕ) (ids : List ℕ) (dst : ℕ → Option V) (misses : List ℕ)
        (v : Option V)
        → id_at (key_of id) ≡ some id
        → cached (key_of id) ≡ v
        → part id_at cached (map key_of (id ∷ ids)) dst misses
          ≡ part id_at cached (map key_of ids) (hit (some id) v dst) (miss (some id) v misses)
    unfolding part
    part-cons id_at id ids dst misses v here e =
        ap₂
          (λ (o : Option ℕ) (u : Option V).
            part id_at cached (map key_of ids) (hit o u dst) (miss o u misses))
          here e

    pub part-hits :
        (id_at : ℕ → Option ℕ) (ids : List ℕ) (dst : ℕ → Option V) (misses : List ℕ) (j : ℕ)
        → ((id : ℕ) → has_id id ids ≡ true → id_at (key_of id) ≡ some id)
        → (part id_at cached (map key_of ids) dst misses).0 j ≡ with_hits ids dst j
    unfolding part hit miss
    part-hits id_at [] dst misses j known = refl
    part-hits id_at (id ∷ ids) dst misses j known =
        let here : id_at (key_of id) ≡ some id = known id (ground (arith, ==_iff id id)) in
        let known' : (i : ℕ) → has_id i ids ≡ true → id_at (key_of i) ≡ some i =
          λ i h. known i (ground arith) in
        let same : id ≡ j → cached (key_of id) ≡ cached (key_of j) =
          λ e. ap (λ (i : ℕ). cached (key_of i)) e in
        elim (Option-cases (cached (key_of id))) [
          | inl absent ↦ rw (part-cons id_at id ids dst misses none here absent) (
              part-hits id_at ids dst (misses ++ id ∷ []) j known'
              ∙ ground (arith, absent, same, ==_iff id j))
          | inr (v, there) ↦ rw (part-cons id_at id ids dst misses (some v) here there) (
              part-hits id_at ids (put_at dst id v) misses j known'
              ∙ ground (arith, there, same, ==_iff id j))
        ]

    pub part-misses :
        (id_at : ℕ → Option ℕ) (ids : List ℕ) (dst : ℕ → Option V) (misses : List ℕ)
        → ((id : ℕ) → has_id id ids ≡ true → id_at (key_of id) ≡ some id)
        → (part id_at cached (map key_of ids) dst misses).1 ≡ misses ++ uncached key_of cached ids
    unfolding part hit miss
    part-misses id_at [] dst misses known = sym (append-nil misses)
    part-misses id_at (id ∷ ids) dst misses known =
        let here : id_at (key_of id) ≡ some id = known id (ground (arith, ==_iff id id)) in
        let known' : (i : ℕ) → has_id i ids ≡ true → id_at (key_of i) ≡ some i =
          λ i h. known i (ground arith) in
        elim (Option-cases (cached (key_of id))) [
          | inl absent ↦
              rw (part-cons id_at id ids dst misses none here absent, absent)
                (part-misses id_at ids dst (misses ++ id ∷ []) known'
                  ∙ append_assoc misses (id ∷ []) (uncached key_of cached ids))
          | inr (v, there) ↦
              rw (part-cons id_at id ids dst misses (some v) here there, there)
                (part-misses id_at ids (put_at dst id v) misses known')
        ]
