-- ===== src/Cache/ReadThrough.antt =====
-- onecache/box.go over onecache/store/store.go: the operations on one key, as a client of any store that
-- keeps the contract of a map, against a map that the client could keep by itself.
use eins.Prelude.{
  ℕ, ◌≡◌, refl, ap, ◌∙◌, true, Option, none, some, List, [], ◌∷◌, arith, ==_iff, Option-cases, inl,
  inr, if◌then◌else◌, ◌==◌,
}
use mathlib.Core.Path.{fun_ext, ap₂}
use eins.Cache.{
  CacheError, not_found, Verdict, ok, World, CacheConfig, fetched, Dst, get, evict, refresh, renew,
}
use eins.Cache.Get.{get_hit, get_fills}
use eins.Cache.Multi.{put_at}

abbrev pub removed : {V : Type 0} → (ℕ → Option V) → ℕ → ℕ → Option V
removed m k j = if k == j then none else m j

-- What a client and a store agree on: the keys that the client uses, the values that it stores, and the
-- states of the store.
pub record Terms (S V : Type 0) : Type 1 where
  pub known : ℕ → Type 0
  pub good : V → Type 0
  pub valid : S → Type 0

-- What a store promises on these terms for the type `t`, while nothing fails or expires, with `content` for
-- what it holds. A lookup may change the store otherwise.
pub record IsMap {S L V T : Type 0} (w : World S L V T) (t : T) (terms : Terms S V)
    (content : S → ℕ → Option V) : Type 0 where
  pub get_there :
      (s : S) (k : ℕ) (v : V)
      → terms.valid s
      → content s k ≡ some v
      → (w.store_get s k t).0 ≡ (none, some v)
  pub get_missing :
      (s : S) (k : ℕ)
      → terms.valid s
      → content s k ≡ none
      → (w.store_get s k t).0 ≡ (some not_found, none)
  pub get_keeps :
      (s : S) (k : ℕ)
      → terms.valid s
      → terms.valid (w.store_get s k t).1
        × ((j : ℕ) → content (w.store_get s k t).1 j ≡ content s j)
  pub set_writes :
      (s : S) (k : ℕ) (v : V) (ttl : ℕ)
      → terms.valid s
      → terms.known k
      → terms.good v
      → ((w.store_set s k v ttl).0 ≡ none)
        × terms.valid (w.store_set s k v ttl).1
        × ((j : ℕ) → content (w.store_set s k v ttl).1 j ≡ put_at (content s) k v j)
  pub delete_removes :
      (s : S) (k : ℕ)
      → terms.valid s
      → ((w.store_delete s (k ∷ [])).0 ≡ none)
        × terms.valid (w.store_delete s (k ∷ [])).1
        × ((j : ℕ) → content (w.store_delete s (k ∷ [])).1 j ≡ removed (content s) k j)

-- The values that the client stores are of the type `t`, and can be assigned to a variable of it.
pub record IsTyped {S L V T : Type 0} (w : World S L V T) (t : T) (good : V → Type 0) : Type 0 where
  pub same_kind : (v : V) → good v → w.indirect_kind t ≡ w.indirect_kind (w.typ v)
  pub elem : (v : V) → good v → w.kind t ≡ w.elem_kind v
  pub fits : (v : V) → good v → w.assignable v t ≡ true

-- A call, with the value that its fallback would return.
pub data Op (V : Type 0) : Type 0 where
  gets : ℕ → V → Op V
  evicts : ℕ → Op V
  refreshes : ℕ → V → Op V

-- The calls keep to the terms.
abbrev pub Meant : {S V : Type 0} → Terms S V → Op V → Type 0
Meant terms (gets k u) = terms.known k × terms.good u
Meant terms (evicts k) = Unit
Meant terms (refreshes k u) = terms.known k × terms.good u

abbrev pub AllMeant : {S V : Type 0} → Terms S V → List (Op V) → Type 0
AllMeant terms [] = Unit
AllMeant terms (op ∷ ops) = Meant terms op × AllMeant terms ops

-- What a client sees of a call: the value in `dst`, how often the fallback was called, and the verdict.
pub record Seen (V : Type 0) : Type 0 where
  pub value : Option V
  pub calls : ℕ
  pub verdict : Verdict

abbrev or_fill : {V : Type 0} → Option V → V → Seen V
or_fill (some v) u = record { value = some v; calls = 0; verdict = ok }
or_fill none u = record { value = some u; calls = 1; verdict = ok }

abbrev value_or : {V : Type 0} → Option V → V → V
value_or (some v) u = v
value_or none u = u

-- The calls on a map: a `Get` writes the fallback's value if there is none.
abbrev pub replay_one : {V : Type 0} → (ℕ → Option V) → Op V → Seen V × (ℕ → Option V)
replay_one m (gets k u) = (or_fill (m k) u, put_at m k (value_or (m k) u))
replay_one m (evicts k) = (record { value = none; calls = 0; verdict = ok }, removed m k)
replay_one m (refreshes k u) = (record { value = none; calls = 1; verdict = ok }, put_at m k u)

abbrev pub replay : {V : Type 0} → (ℕ → Option V) → List (Op V) → List (Seen V) × (ℕ → Option V)
replay m [] = ([], m)
replay m (op ∷ ops) =
    let (seen, m') = replay_one m op in let (later, m'') = replay m' ops in (seen ∷ later, m'')

module _ {S L V T : Type 0} (w : World S L V T) (config : CacheConfig) (t : T) (expire : ℕ) where
  abbrev pub new_dst : Dst V T
  new_dst = record { is_ptr = true; target = t; content = none }

  -- A call of the cache.
  unfoldable pub run_one : S → L → Op V → Seen V × (S × L)
  unfolding get evict refresh
  run_one s l (gets k u) =
      let r = get w config s l k (fetched u) new_dst expire in
      (record { value = r.dst.content; calls = r.calls; verdict = r.verdict }, (r.store, r.limiter))
  run_one s l (evicts k) =
      let (v, s') = evict w s k in (record { value = none; calls = 0; verdict = v }, (s', l))
  run_one s l (refreshes k u) =
      let r = refresh w s k t expire (fetched u) in
      (record { value = none; calls = r.calls; verdict = r.verdict }, (r.store, l))

  unfoldable pub run : S → L → List (Op V) → List (Seen V) × (S × L)
  unfolding run_one
  run s l [] = ([], (s, l))
  run s l (op ∷ ops) =
      let (seen, (s', l')) = run_one s l op in let (later, e) = run s' l' ops in (seen ∷ later, e)

  module _ (terms : Terms S V) (content : S → ℕ → Option V) (h : IsMap w t terms content)
      (typed : IsTyped w t terms.good) where
    -- After a call the client has seen the same, and the store holds the same.
    abbrev Agrees : (ℕ → Option V) → Op V → Seen V × (S × L) → Type 0
    Agrees m op r =
        (r.0 ≡ (replay_one m op).0) × (content r.1.0 ≡ (replay_one m op).1) × terms.valid r.1.0

    looked_up :
        (s : S) (k : ℕ) {a : Option CacheError × Option V}
        → (w.store_get s k t).0 ≡ a
        → w.store_get s k t ≡ (a, (w.store_get s k t).1)
    looked_up s k e = ap (λ (x : Option CacheError × Option V). (x, (w.store_get s k t).1)) e

    put_there : (m : ℕ → Option V) (k j : ℕ) (v : V) → m k ≡ some v → m j ≡ put_at m k v j
    put_there m k j v e = ground (arith, e, ==_iff k j, λ (same : k ≡ j). ap m same)

    gets-Agrees :
        (s : S) (l : L) (k : ℕ) (u : V)
        → terms.valid s
        → terms.known k
        → terms.good u
        → Agrees (content s) (gets k u) (run_one s l (gets k u))
    unfolding run_one
    gets-Agrees s l k u valid known good =
        let s' = (w.store_get s k t).1 in
        let (valid', keeps) = h.get_keeps s k valid in
        let kept : content s' ≡ content s = fun_ext keeps in
        elim (Option-cases (content s k)) [
          | inl absent ↦
              let filled =
                get_fills w config s l k expire new_dst u not_found refl refl
                  (looked_up s k (h.get_missing s k valid absent)) (typed.same_kind u good)
                  (typed.fits u good) in
              let (stored, valid'', written) = h.set_writes s' k u expire valid' known good in
              rw (filled, absent)
                (
                  refl,
                  fun_ext λ j. written j ∙ ap (λ (m : ℕ → Option V). put_at m k u j) kept,
                  valid'',
                )
          | inr (v, there) ↦
              let hit =
                get_hit w config s l k expire new_dst (fetched u) refl
                  (looked_up s k (h.get_there s k v valid there)) in
              rw (hit, there) (refl, kept ∙ fun_ext λ j. put_there (content s) k j v there, valid')
        ]

    evicts-Agrees :
        (s : S) (l : L) (k : ℕ)
        → terms.valid s
        → Agrees (content s) (evicts k) (run_one s l (evicts k))
    unfolding run_one evict
    evicts-Agrees s l k valid =
        let (done, valid', gone) = h.delete_removes s k valid in
        (rw done refl, fun_ext gone, valid')

    refreshes-Agrees :
        (s : S) (l : L) (k : ℕ) (u : V)
        → terms.valid s
        → terms.known k
        → terms.good u
        → Agrees (content s) (refreshes k u) (run_one s l (refreshes k u))
    unfolding run_one refresh renew
    refreshes-Agrees s l k u valid known good =
        let s' = (w.store_delete s (k ∷ [])).1 in
        let (done, valid', gone) = h.delete_removes s k valid in
        let (stored, valid'', written) = h.set_writes s' k u expire valid' known good in
        let r : refresh w s k t expire (fetched u)
            ≡ record { store = (w.store_set s' k u expire).1; calls = 1; verdict = ok } =
          ground (arith, done, stored, typed.elem u good, ==_iff (w.kind t) (w.elem_kind u)) in
        rw r (refl, fun_ext λ j. written j ∙ ground (arith, gone j), valid'')

    run_one-Agrees :
        (s : S) (l : L) (op : Op V)
        → terms.valid s
        → Meant terms op
        → Agrees (content s) op (run_one s l op)
    run_one-Agrees s l (gets k u) valid (known, good) = gets-Agrees s l k u valid known good
    run_one-Agrees s l (evicts k) valid meant = evicts-Agrees s l k valid
    run_one-Agrees s l (refreshes k u) valid (known, good) =
        refreshes-Agrees s l k u valid known good

  -- Over a store that keeps the contract of a map, any calls of `Get`, `Evict` and `Refresh` that keep to its
  -- terms, with values of one type, show a client what the same calls on a map would: the values, how often
  -- a fallback is called, and that none fails. At the end the store holds what the map would.
  pub run_refines :
      (terms : Terms S V) (content : S → ℕ → Option V) (s : S) (l : L) (ops : List (Op V))
      → IsMap w t terms content
      → IsTyped w t terms.good
      → terms.valid s
      → AllMeant terms ops
      → let r = run s l ops in
        (r.0 ≡ (replay (content s) ops).0) × (content r.1.0 ≡ (replay (content s) ops).1)
  unfolding run
  run_refines terms content s l [] h typed valid meant = (refl, refl)
  run_refines terms content s l (op ∷ ops) h typed valid (meant, all) =
      let (seen, next, valid') = run_one-Agrees terms content h typed s l op valid meant in
      let r = run_one s l op in
      let (later, last) = run_refines terms content r.1.0 r.1.1 ops h typed valid' all in
      let start : replay (content r.1.0) ops ≡ replay (replay_one (content s) op).1 ops =
        ap (λ (m : ℕ → Option V). replay m ops) next in
      (ap₂ (λ (x : Seen V) (xs : List (Seen V)). x ∷ xs) seen (rw⁻¹ start later), rw⁻¹ start last)
