-- ===== src/Store.antt =====
-- onecache/store/gcache.go: `LocalStore`. The cache of the library gcache, and what `reflect` tells of
-- a value, are parameters; a key is known by a number, and a ttl by its nanoseconds.
pub mod Laws
pub mod Serializer
pub mod Redis
pub mod Variables
pub mod Contract
use eins.Prelude.{
  ℕ, ◌≡◌, Bool, true, false, not, Option, none, some, List, [], ◌∷◌, length, if◌then◌else◌, ◌==◌,
  ◌⊎◌, inl, inr,
}
use eins.Cache.{Dst}
use eins.Cache.Multi.{Target, no_map, nil_map, nil_map_ptr, some_map, some_map_ptr, put_at}

-- The errors of store.go, and those of gcache.
pub data StoreError : Type 0 where
  bad_src_type keys_length_not_match bad_dst_type bad_dst_map_type bad_dst_map_value : StoreError
  src_dst_type_mismatch : StoreError
  backend : ℕ → StoreError

pub data Outcome : Type 0 where
  done panicked : Outcome
  failed : StoreError → Outcome

-- `gcache.Cache`, as far as the store calls it. `lookup` changes it, since it keeps track of use.
pub record Gcache (G V : Type 0) : Type 0 where
  pub lookup : G → ℕ → (StoreError ⊎ V) × G
  pub has : G → ℕ → Bool
  pub set_with_expire : G → ℕ → V → ℕ → Option StoreError × G
  pub remove : G → ℕ → G

-- `indirect` follows one pointer, and is `none` on a nil pointer; `indirect_kind` and `assignable` are
-- those of the cache.
pub record Values (V T : Type 0) : Type 0 where
  pub indirect : V → Option V
  pub typ : V → T
  pub indirect_kind : T → ℕ
  pub assignable : V → T → Bool

abbrev pub outcome_of : Option StoreError → Outcome
outcome_of none = done
outcome_of (some e) = failed e

-- `PanicIf` of eins.go.
unfoldable pub must : Outcome → Outcome
must (failed e) = panicked
must o = o

module _ {G V T : Type 0} (b : Gcache G V) (r : Values V T) where
  open b use {lookup, has, set_with_expire, remove}
  open r use {indirect, typ, indirect_kind, assignable}

  -- The end of `Get`, for the value behind the pointer that was found. A nil pointer has no type.
  unfoldable pub assign : G → Dst V T → Option V → Outcome × Dst V T × G
  assign g d none = (panicked, d, g)
  assign g d (some v) =
      if not (indirect_kind d.target == indirect_kind (typ v))
      then (failed src_dst_type_mismatch, d, g)
      else if assignable v d.target
      then (done, record d { content = some v }, g)
      else (panicked, d, g)

  unfoldable pub on_lookup : G → Dst V T → StoreError ⊎ V → Outcome × Dst V T × G
  unfolding assign
  on_lookup g d (inl e) = (failed e, d, g)
  on_lookup g d (inr v) = assign g d (indirect v)

  -- `Get`.
  unfoldable pub get : G → ℕ → Dst V T → Outcome × Dst V T × G
  unfolding on_lookup
  get g key d =
      let (found, g') = lookup g key in
      if d.is_ptr then on_lookup g' d found else (failed bad_dst_type, d, g)

  unfoldable pub must_get : G → ℕ → Dst V T → Outcome × Dst V T × G
  unfolding get must
  must_get g key d = let (o, d', g') = get g key d in (must o, d', g')

  -- The loop of `GetMulti`: a key that is not found is passed over, and a value that does not fit the
  -- map panics.
  unfoldable pub get_all : (V → Bool) → List ℕ → G → (ℕ → Option V) → Outcome × (ℕ → Option V) × G
  get_all fits [] g dst = (done, dst, g)
  get_all fits (key ∷ keys) g dst =
      let (found, g') = lookup g key in
      let passed = get_all fits keys g' dst in
      let taken : V → Outcome × (ℕ → Option V) × G = λ v. get_all fits keys g' (put_at dst key v) in
      elim found [ inl e ↦ passed | inr v ↦ if fits v then taken v else (panicked, dst, g') ]

  -- `GetMulti`.
  unfoldable pub get_multi :
      Target → (V → Bool) → List ℕ → G → (ℕ → Option V) → Outcome × (ℕ → Option V) × G
  unfolding get_all
  get_multi t fits keys g dst = elim t [
    | no_map ↦ (failed bad_dst_map_type, dst, g)
    | nil_map ↦ (failed bad_dst_map_value, dst, g)
    | nil_map_ptr ↦ get_all fits keys g (λ _. none)
    | some_map ↦ get_all fits keys g dst
    | some_map_ptr ↦ get_all fits keys g dst
  ]

  unfoldable pub must_get_multi :
      Target → (V → Bool) → List ℕ → G → (ℕ → Option V) → Outcome × (ℕ → Option V) × G
  unfolding get_multi must
  must_get_multi t fits keys g dst =
      let (o, dst', g') = get_multi t fits keys g dst in (must o, dst', g')

  -- `Exists` and `ExistsMulti`, which never fail.
  unfoldable pub exists : G → ℕ → Bool
  exists g key = has g key

  unfoldable pub exists_multi : G → List ℕ → List Bool
  unfolding exists
  exists_multi g [] = []
  exists_multi g (key ∷ keys) = exists g key ∷ exists_multi g keys

  -- `Set`.
  unfoldable pub set : G → ℕ → V → ℕ → Outcome × G
  set g key v ttl = let (err, g') = set_with_expire g key v ttl in (outcome_of err, g')

  unfoldable pub must_set : G → ℕ → V → ℕ → Outcome × G
  unfolding set must
  must_set g key v ttl = let (o, g') = set g key v ttl in (must o, g')

  -- The loop of `SetMulti`, which ends at the first error.
  unfoldable pub set_all : G → List ℕ → List V → ℕ → Outcome × G
  unfolding set
  set_all g (key ∷ keys) (v ∷ vs) ttl =
      let (o, g') = set g key v ttl in
      let rest = set_all g' keys vs ttl in
      elim o [ done ↦ rest | panicked ↦ (panicked, g') | failed e ↦ (failed e, g') ]
  set_all g [] vs ttl = (done, g)
  set_all g (key ∷ keys) [] ttl = (done, g)

  -- `SetMulti`. `is_slice` says that `values` is a slice, or a pointer to one.
  unfoldable pub set_multi : G → List ℕ → Bool → List V → ℕ → Outcome × G
  unfolding set_all
  set_multi g keys is_slice values ttl =
      if not is_slice
      then (failed bad_src_type, g)
      else if not (length values == length keys)
      then (failed keys_length_not_match, g)
      else set_all g keys values ttl

  unfoldable pub must_set_multi : G → List ℕ → Bool → List V → ℕ → Outcome × G
  unfolding set_multi must
  must_set_multi g keys is_slice values ttl =
      let (o, g') = set_multi g keys is_slice values ttl in (must o, g')

  -- `Delete` and `MustDelete`, which never fail.
  unfoldable pub delete : G → List ℕ → G
  delete g [] = g
  delete g (key ∷ keys) = delete (remove g key) keys
