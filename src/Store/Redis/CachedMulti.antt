-- ===== src/Store/Redis/CachedMulti.antt =====
-- onecache/box.go over onecache/store/redis.go: `GetMulti` of the cache with `RedisStore` as its store.
use eins.Prelude.{
  ℕ, ◌≡◌, ◌≢◌, refl, ap, ◌∙◌, Bool, true, Option, none, some, List, [], ◌∷◌, map, arith, ==_iff,
  Option-cases, Bool-cases, inl, inr,
}
use mathlib.Core.Path.{ap₂}
use eins.Cache.{World, CacheConfig, ok}
use eins.Cache.Multi.{
  some_map, some_map_ptr, Shapes, Found, found, FetchedMulti, put_at, write_all, keys_of, values_of,
}
use eins.Cache.Multi as Multi
use eins.Cache.Hits.{has_id, or_else, uncached, with_hits}
use eins.Cache.MultiResult.{answered, store_after, Fitting, get_multi_result}
use eins.Cache.Writes.{
  has_entry, write_all_elsewhere, write_all_there, write_all-pairs, uncached_missing, AllCached,
  uncached_same, get_multi_hits,
}
use eins.Store.{Outcome, done}
use eins.Store.Redis.{RedisClient, Serializer, get_multi, set_multi}
use eins.Store.Redis.Spec.{has_key, IsServer, values, set_multi-writes, Loads, get_multi-Loads}
use eins.Store.Redis.Readable.{Returns, Readable, all_return, set_multi-Readable}
use eins.Store.Redis.Cached.{over_redis}

has_key-map :
    (key_of : ℕ → ℕ) (ids : List ℕ) (j : ℕ)
    → has_id j ids ≡ true
    → has_key (key_of j) (map key_of ids) ≡ true
has_key-map key_of [] j h = h
has_key-map key_of (id ∷ ids) j h = ground (
  arith,
  has_key-map key_of ids j,
  ==_iff id j,
  ==_iff (key_of id) (key_of j),
  λ (e : id ≡ j). ap key_of e,
)

-- The ids are a slice of the key type of the destination, which is a map.
abbrev pub IdsFit : Shapes → Type 0
IdsFit sh =
    (sh.target ≡ some_map)
    × (sh.ids_slice ≡ true)
    × (sh.ids_fit ≡ true)
    × (sh.id_kind ≡ sh.key_kind)

module _ {C L V T B : Type 0} (client : RedisClient C B) (serializer : Serializer V T B)
    (view : C → ℕ → Option B) (base : World C L V T) (nil_reply : ℕ) (t : T) (zero_value : V)
    (key_of : ℕ → ℕ) (is_nil : V → Bool) where
  abbrev w : World C L V T
  w = over_redis client serializer base nil_reply t zero_value

  abbrev stored : C → ℕ → Option V
  stored c k = values client serializer view t c k

  abbrev loaded : C → List ℕ → ℕ → Option V
  loaded c keys = (get_multi client serializer some_map_ptr t zero_value c keys (λ _. none)).1

  -- The ids that Redis has no value of, and what the fallback brings for them.
  abbrev pub missing : C → List ℕ → List ℕ
  missing c ids = uncached key_of (stored c) ids

  abbrev pub brought : (List ℕ → Found V) → C → List ℕ → List (ℕ × V)
  brought answers c ids = answered w key_of is_nil answers (missing c ids)

  map-some : (ids : List ℕ) → ids ≢ [] → map key_of ids ≢ []
  map-some [] some_ids = absurd (some_ids refl)
  map-some (id ∷ ids) some_ids = λ e. ground arith

  has_id-some : (j : ℕ) (ids : List ℕ) → has_id j ids ≡ true → ids ≢ []
  has_id-some j [] there = ground arith
  has_id-some j (id ∷ ids) there = λ e. ground arith

  loads :
      (c : C) (keys : List ℕ) (j : ℕ)
      → IsServer client view
      → keys ≢ []
      → Readable client serializer view t (view c)
      → Loads client serializer view t c keys
          (λ _. none)
          j
          (get_multi client serializer some_map_ptr t zero_value c keys (λ _. none))
  unfolding get_multi
  loads c keys j h some_keys readable =
      get_multi-Loads client serializer view t zero_value c keys (λ _. none) j h some_keys readable

  answers_loaded :
      (c : C) (keys : List ℕ)
      → IsServer client view
      → keys ≢ []
      → Readable client serializer view t (view c)
      → w.store_get_multi c keys ≡ ((none, loaded c keys), c)
  answers_loaded c keys h some_keys readable = rw ((loads c keys 0 h some_keys readable).0) refl

  loaded-stored :
      (c : C) (ids : List ℕ) (j : ℕ)
      → IsServer client view
      → Readable client serializer view t (view c)
      → has_id j ids ≡ true
      → loaded c (map key_of ids) (key_of j) ≡ stored c (key_of j)
  loaded-stored c ids j h readable there =
      let here = has_key-map key_of ids j there in
      ground (
        arith,
        here,
        (loads c (map key_of ids) (key_of j) h (map-some ids (has_id-some j ids there)) readable).1,
      )

  -- `SetMulti` of the entries ends without an error; without entries it is not called.
  abbrev pub Taken : C → ℕ → List (ℕ × V) → Type 0
  Taken c expire [] = Unit
  Taken c expire (e ∷ es) =
      (set_multi client serializer c (keys_of key_of (e ∷ es)) true (values_of (e ∷ es)) expire).0
      ≡ done

  module _ (h : IsServer client view) (back : Returns client serializer view t)
      (one_key : (i j : ℕ) → key_of i ≡ key_of j → i ≡ j) (answers : List ℕ → Found V) where
    abbrev after : C → ℕ → List (ℕ × V) → C
    after c expire es = store_after w key_of is_nil answers c expire es

    after-Readable :
        (c : C) (expire : ℕ) (es : List (ℕ × V))
        → Taken c expire es
        → Readable client serializer view t (view c)
        → Readable client serializer view t (view (after c expire es))
    after-Readable c expire [] sent readable = readable
    after-Readable c expire (e ∷ es) sent readable =
        set_multi-Readable client serializer view t c (after c expire (e ∷ es))
          (keys_of key_of (e ∷ es)) (values_of (e ∷ es)) expire h back readable
          (ap₂ (λ (o : Outcome) (c' : C). (o, c')) sent refl)

    after-stored :
        (c : C) (expire : ℕ) (es : List (ℕ × V)) (j : ℕ)
        → Taken c expire es
        → stored (after c expire es) (key_of j) ≡ write_all es (λ i. stored c (key_of i)) j
    unfolding write_all
    after-stored c expire [] j sent = refl
    after-stored c expire (e ∷ es) j sent =
        (set_multi-writes client serializer view t c (after c expire (e ∷ es))
          (keys_of key_of (e ∷ es)) (values_of (e ∷ es)) expire (key_of j) h
          (all_return client serializer view t (values_of (e ∷ es)) back)
          (ap₂ (λ (o : Outcome) (c' : C). (o, c')) sent refl)).1
        ∙ write_all-pairs key_of one_key (e ∷ es) (stored c) j

    -- An id with an entry for it if Redis has no value of it has a value after the entries were written.
    written_value :
        (c : C) (ids : List ℕ) (es : List (ℕ × V)) (dst : ℕ → Option V) (old : Option V) (j : ℕ)
        → has_id j ids ≡ true
        → (has_id j (missing c ids) ≡ true → has_entry j es ≡ true)
        → dst j ≡ or_else (stored c (key_of j)) old
        → (v : V) × (write_all es (λ i. stored c (key_of i)) j ≡ some v)
          × (write_all es dst j ≡ some v)
    written_value c ids es dst old j there covered kept = elim (Bool-cases (has_entry j es)) [
      | inl entry ↦
          let (v, e) = write_all_there es j entry in (v, e (λ i. stored c (key_of i)), e dst)
      | inr other ↦ elim (Option-cases (stored c (key_of j))) [
        | inl absent ↦
            ground (arith, covered (uncached_missing key_of (stored c) ids j there absent))
        | inr (v, found_v) ↦ (
          v,
          write_all_elsewhere es (λ i. stored c (key_of i)) j other ∙ found_v,
          write_all_elsewhere es dst j other ∙ kept ∙ ap (λ (o : Option V). or_else o old) found_v,
        )
      ]
    ]

    all_cached :
        (c : C) (ids : List ℕ) (expire : ℕ)
        → Readable client serializer view t (view c)
        → Taken c expire (brought answers c ids)
        → ((j : ℕ) → has_id j (missing c ids) ≡ true → has_entry j (brought answers c ids) ≡ true)
        → let c' = after c expire (brought answers c ids) in
          AllCached key_of (loaded c' (map key_of ids)) ids
    all_cached c ids expire readable sent covered j there =
        let es = brought answers c ids in
        let c' = after c expire es in
        let (v, e, e') =
          written_value c ids es (λ i. stored c (key_of i)) none j there (covered j)
            (ground arith) in
        (
          v,
          loaded-stored c' ids j h (after-Readable c expire es sent readable) there
              ∙ after-stored c expire es j sent
              ∙ e,
        )

  -- Let `GetMulti` be called twice for the same ids, and let the fallback of the first call return a value
  -- that is not nil for each id that Redis has none of. If Redis takes these values and gives back what it
  -- holds, and values come back from their encoding, then both calls end without an error, the second calls
  -- no fallback and leaves Redis alone, and both leave the same value under each id.
  pub get_multi-get_multi :
      (config config' : CacheConfig) (sh sh' : Shapes) (c : C) (l : L) (ids : List ℕ)
      (dst dst' : ℕ → Option V) (expire expire' : ℕ) (answers : List ℕ → Found V)
      (f : List ℕ → FetchedMulti V) (j : ℕ)
      → IsServer client view
      → Returns client serializer view t
      → ((i k : ℕ) → key_of i ≡ key_of k → i ≡ k)
      → Readable client serializer view t (view c)
      → IdsFit sh
      → IdsFit sh'
      → ids ≢ []
      → Fitting w key_of is_nil answers sh
      → Taken c expire (brought answers c ids)
      → ((i : ℕ) → has_id i (missing c ids) ≡ true → has_entry i (brought answers c ids) ≡ true)
      → has_id j ids ≡ true
      → let r =
          Multi.get_multi w key_of is_nil config sh c l ids dst expire (λ ms. found (answers ms)) in
        let r' = Multi.get_multi w key_of is_nil config' sh' r.store r.limiter ids dst' expire' f in
        (r.verdict ≡ ok)
        × (r'.verdict ≡ ok)
        × (r'.asked ≡ none)
        × (r'.store ≡ r.store)
        × (v : V) × (r.dst j ≡ some v)
        × (r'.dst j ≡ some v)
  get_multi-get_multi config config' sh sh' c l ids dst dst' expire expire' answers f j h back
        one_key readable (target, slice, fit, kinds) (target', slice', fit', kinds') some_ids
        fitting sent covered there =
      let keys = map key_of ids in
      let es = brought answers c ids in
      let c' = store_after w key_of is_nil answers c expire es in
      let readable' = after-Readable h back one_key answers c expire es sent readable in
      let same : uncached key_of (loaded c keys) ids ≡ missing c ids =
        uncached_same key_of (loaded c keys) (stored c) ids
          λ i e. loaded-stored c ids i h readable e in
      let first =
        get_multi_result w key_of is_nil answers config sh c c l ids dst (loaded c keys) expire
          one_key target slice fit kinds some_ids
          (answers_loaded c keys h (map-some ids some_ids) readable) fitting in
      let second =
        get_multi_hits w key_of is_nil one_key config' sh' c' c' l ids dst' (loaded c' keys) expire'
          f target' slice' fit' kinds' some_ids
          (answers_loaded c' keys h (map-some ids some_ids) readable')
          (all_cached h back one_key answers c ids expire readable sent covered) in
      let hits = with_hits key_of one_key (loaded c keys) ids dst in
      let kept : hits j ≡ or_else (stored c (key_of j)) (dst j) =
        ground (arith, there, loaded-stored c ids j h readable there) in
      let (v, e, e') =
        written_value h back one_key answers c ids es hits (dst j) j there (covered j) kept in
      let again : loaded c' keys (key_of j) ≡ some v =
        loaded-stored c' ids j h readable' there
        ∙ after-stored h back one_key answers c expire es j sent
        ∙ e in
      rw (first, same, second, there, again) (refl, refl, refl, refl, v, e', refl)
