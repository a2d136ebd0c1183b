-- ===== src/Cache/Writes.antt =====
-- onecache/box.go: what `write_all` leaves of a map, and when `GetMulti` finds everything in the store.
use eins.Prelude.{
  ℕ, ◌≡◌, ◌≢◌, refl, ap, ◌∙◌, Bool, true, false, ◌||◌, Option, none, some, List, [], ◌∷◌, map,
  arith, ==_iff, Option-cases, Bool-cases, inl, inr, if_true, ◌==◌,
}
use mathlib.Core.Path.{fun_ext, ap₂}
use eins.Cache.{ok, World, CacheConfig}
use eins.Cache.Multi.{
  some_map, Shapes, FetchedMulti, id_of, keys_of, values_of, write_all, ask_misses, after_get,
  on_answer, get_checked, get_multi, put_at,
}
use eins.Cache.Hits.{has_id, uncached, unless_some, with_hits, part-hits, part-misses, id_of_self}

module _ {V : Type 0} where
  abbrev pub has_entry : ℕ → List (ℕ × V) → Bool
  has_entry j [] = false
  has_entry j ((i, v) ∷ es) = (i == j) || has_entry j es

  -- The keys with their values, as far as both lists go.
  abbrev pub pairs : List ℕ → List V → List (ℕ × V)
  pairs (k ∷ ks) (v ∷ vs) = (k, v) ∷ pairs ks vs
  pairs [] vs = []
  pairs (k ∷ ks) [] = []

  pub write_all_pointwise :
      (es : List (ℕ × V)) (f g : ℕ → Option V) (j : ℕ)
      → ((k : ℕ) → f k ≡ g k)
      → write_all es f j ≡ write_all es g j
  unfolding write_all
  write_all_pointwise [] f g j h = h j
  write_all_pointwise ((k, v) ∷ es) f g j h =
      write_all_pointwise es (put_at f k v) (put_at g k v) j (λ i. ground (arith, h i))

  pub write_all_elsewhere :
      (es : List (ℕ × V)) (f : ℕ → Option V) (j : ℕ)
      → has_entry j es ≡ false
      → write_all es f j ≡ f j
  unfolding write_all
  write_all_elsewhere [] f j h = refl
  write_all_elsewhere ((i, v) ∷ es) f j h = ground (arith, write_all_elsewhere es (put_at f i v) j)

  -- Under an id with an entry lies a value, whatever was there before.
  pub write_all_there :
      (es : List (ℕ × V)) (j : ℕ)
      → has_entry j es ≡ true
      → (v : V) × ((f : ℕ → Option V) → write_all es f j ≡ some v)
  unfolding write_all
  write_all_there [] j h = ground arith
  write_all_there ((i, v) ∷ es) j h = elim (Bool-cases (has_entry j es)) [
    | inl later ↦ let (u, e) = write_all_there es j later in (u, λ f. e (put_at f i v))
    | inr last ↦ (v, λ f. write_all_elsewhere es (put_at f i v) j last ∙ ground arith)
  ]

  -- Writing under the keys of the ids, read at the key of an id.
  pub write_all-pairs :
      (key_of : ℕ → ℕ)
      → ((i j : ℕ) → key_of i ≡ key_of j → i ≡ j)
      → (es : List (ℕ × V)) (f : ℕ → Option V) (j : ℕ)
      → write_all (pairs (keys_of key_of es) (values_of es)) f (key_of j)
        ≡ write_all es (λ i. f (key_of i)) j
  unfolding write_all keys_of values_of
  write_all-pairs key_of one_key [] f j = refl
  write_all-pairs key_of one_key ((i, v) ∷ es) f j =
      write_all-pairs key_of one_key es (put_at f (key_of i) v) j
      ∙ write_all_pointwise es (λ k. put_at f (key_of i) v (key_of k))
          (put_at (λ k. f (key_of k)) i v) j
          λ k. ground (
            arith,
            ==_iff i k,
            ==_iff (key_of i) (key_of k),
            one_key i k,
            λ (e : i ≡ k). ap key_of e,
          )

module _ {V : Type 0} (key_of : ℕ → ℕ) (cached : ℕ → Option V) where
  pub uncached_missing :
      (ids : List ℕ) (j : ℕ)
      → has_id j ids ≡ true
      → cached (key_of j) ≡ none
      → has_id j (uncached key_of cached ids) ≡ true
  uncached_missing [] j h absent = h
  uncached_missing (id ∷ ids) j h absent =
      let same : id ≡ j → cached (key_of id) ≡ none =
        λ e. ap (λ (i : ℕ). cached (key_of i)) e ∙ absent in
      elim (Option-cases (cached (key_of id))) [
        | inl none_here ↦ ground (arith, none_here, uncached_missing ids j, ==_iff id j)
        | inr (v, there) ↦ ground (arith, there, same, uncached_missing ids j, ==_iff id j)
      ]

  -- Each of the ids has a value in the store.
  abbrev pub AllCached : List ℕ → Type 0
  AllCached ids = (j : ℕ) → has_id j ids ≡ true → (v : V) × (cached (key_of j) ≡ some v)

  pub uncached_none : (ids : List ℕ) → AllCached ids → uncached key_of cached ids ≡ []
  uncached_none [] h = refl
  uncached_none (id ∷ ids) h =
      let (v, there) = h id (ground (arith, ==_iff id id)) in
      rw there (uncached_none ids λ j e. h j (ground arith))

pub uncached_same :
    {V : Type 0} (key_of : ℕ → ℕ) (f g : ℕ → Option V) (ids : List ℕ)
    → ((j : ℕ) → has_id j ids ≡ true → f (key_of j) ≡ g (key_of j))
    → uncached key_of f ids ≡ uncached key_of g ids
uncached_same key_of f g [] h = refl
uncached_same key_of f g (id ∷ ids) h =
    ap₂ (λ (o : Option _) (later : List ℕ). unless_some o id later)
      (h id (ground (arith, ==_iff id id))) (uncached_same key_of f g ids λ j e. h j (ground arith))

module _ {S L V T : Type 0} (w : World S L V T) (key_of : ℕ → ℕ) (is_nil : V → Bool)
    (one_key : (i j : ℕ) → key_of i ≡ key_of j → i ≡ j) where
  open w use {store_get_multi}

  -- A `GetMulti` of ids that the store has calls no fallback and stores nothing.
  pub get_multi_hits :
      (c : CacheConfig) (sh : Shapes) (s s' : S) (l : L) (ids : List ℕ) (dst cached : ℕ → Option V)
      (expire : ℕ) (f : List ℕ → FetchedMulti V)
      → sh.target ≡ some_map
      → sh.ids_slice ≡ true
      → sh.ids_fit ≡ true
      → sh.id_kind ≡ sh.key_kind
      → ids ≢ []
      → store_get_multi s (map key_of ids) ≡ ((none, cached), s')
      → AllCached key_of cached ids
      → get_multi w key_of is_nil c sh s l ids dst expire f ≡ record {
        store = s';
        limiter = l;
        dst = with_hits key_of one_key cached ids dst;
        asked = none;
        verdict = ok;
      }
  unfolding get_multi get_checked on_answer after_get ask_misses
  get_multi_hits c sh s s' l [] dst cached expire f target slice id_fit kinds some_ids answer all =
      absurd (some_ids refl)
  get_multi_hits c sh s s' l (i ∷ is) dst cached expire f target slice id_fit kinds some_ids answer
        all =
      let ids = i ∷ is in
      let known : (id : ℕ) → has_id id ids ≡ true → id_of key_of ids (key_of id) ≡ some id =
        id_of_self key_of one_key ids in
      let hits =
        fun_ext λ j. part-hits key_of one_key cached (id_of key_of ids) ids dst [] j known in
      let misses =
        part-misses key_of one_key cached (id_of key_of ids) ids dst [] known
        ∙ uncached_none key_of cached ids all in
      let rest : after_get w key_of is_nil sh s' l ids cached dst expire f
          ≡ ask_misses w key_of is_nil sh s' l (with_hits key_of one_key cached ids dst) [] expire
              f =
        if_true sh.ids_fit _ _ id_fit
        ∙ ap₂ (λ (d : ℕ → Option V) (ms : List ℕ). ask_misses w key_of is_nil sh s' l d ms expire f)
            hits misses in
      ground (arith, rest, ==_iff sh.id_kind sh.key_kind)
