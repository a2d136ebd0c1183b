-- ===== src/Store/Redis.antt =====
-- onecache/store/redis.go: `RedisStore`. The client of go-redis is a parameter, and so is the
-- serializer, an interface. A map is one from strings, as the comment of `Store` asks.
pub mod Spec
pub mod Cached
pub mod Readable
pub mod CachedMulti
pub mod Contract
mod Tests
use eins.Prelude.{
  ℕ, zero, ◌≡◌, Bool, true, false, not, Option, none, some, List, [], ◌∷◌, length, map,
  if◌then◌else◌, ◌==◌, ◌⊎◌, inl, inr,
}
use eins.Cache.{Dst}
use eins.Cache.Multi.{Target, no_map, nil_map, nil_map_ptr, some_map, some_map_ptr, put_at}
use eins.Store.{
  StoreError, bad_src_type, keys_length_not_match, bad_dst_type, bad_dst_map_type,
  bad_dst_map_value, backend, Outcome, done, panicked, failed, must,
}

-- What the store calls of `redis.Client`. A missing key is an error of `get`, and `none` of `mget`; a
-- pipeline is sent as a whole.
pub record RedisClient (C B : Type 0) : Type 0 where
  pub get : C → ℕ → ℕ ⊎ B
  pub mget : C → List ℕ → ℕ ⊎ List (Option B)
  pub exists : C → ℕ → ℕ × Option ℕ
  pub pipeline_exists : C → List ℕ → ℕ ⊎ List ℕ
  pub set : C → ℕ → B → ℕ → Option ℕ × C
  pub pipeline_set : C → List (ℕ × B) → ℕ → Option ℕ × C
  pub del : C → List ℕ → Option ℕ × C

-- `Serializer`.
pub record Serializer (V T B : Type 0) : Type 0 where
  pub decode : B → T → Option ℕ × Option V
  pub encode : V → ℕ ⊎ B

abbrev pub outcome_of : Option ℕ → Outcome
outcome_of none = done
outcome_of (some e) = failed (backend e)

-- What `decode` leaves in `dst`.
abbrev pub leaves : {V T : Type 0} → Dst V T → Option V → Dst V T
leaves d none = d
leaves d (some v) = record d { content = some v }

module _ {C V T B : Type 0} (client : RedisClient C B) (serializer : Serializer V T B) where
  open client use {mget, pipeline_exists, pipeline_set, del}
  open serializer use {decode, encode}

  unfoldable pub decoded : Dst V T → ℕ ⊎ B → Outcome × Dst V T
  decoded d (inl e) = (failed (backend e), d)
  decoded d (inr src) = (outcome_of (decode src d.target).0, leaves d (decode src d.target).1)

  -- `Get` and `MustGet`.
  unfoldable pub get : C → ℕ → Dst V T → Outcome × Dst V T
  unfolding decoded
  get c key d = if d.is_ptr then decoded d (client.get c key) else (failed bad_dst_type, d)

  unfoldable pub must_get : C → ℕ → Dst V T → Outcome × Dst V T
  unfolding get must
  must_get c key d = let (o, d') = get c key d in (must o, d')

  -- One value of `GetMulti`, decoded into a new place of the type of the map's values, which holds
  -- `zero_value` before.
  unfoldable pub place : (ℕ → Option V) → ℕ → V → Option V → ℕ → Option V
  place dst key zero_value none = put_at dst key zero_value
  place dst key zero_value (some v) = put_at dst key v

  -- The loop of `GetMulti` over the values. A value beyond the keys makes the index panic.
  unfoldable pub load : T → V → List ℕ → List (Option B) → (ℕ → Option V) → Outcome × (ℕ → Option V)
  unfolding place
  load t zero_value keys [] dst = (done, dst)
  load t zero_value [] (none ∷ values) dst = load t zero_value [] values dst
  load t zero_value [] (some src ∷ values) dst = elim (decode src t).0 [
    | none ↦ (panicked, dst)
    | some e ↦ (failed (backend e), dst)
  ]
  load t zero_value (key ∷ keys) (none ∷ values) dst = load t zero_value keys values dst
  load t zero_value (key ∷ keys) (some src ∷ values) dst =
      let (err, v) = decode src t in
      let rest = load t zero_value keys values (place dst key zero_value v) in
      elim err [ none ↦ rest | some e ↦ (failed (backend e), dst) ]

  unfoldable pub load_all :
      T → V → List ℕ → ℕ ⊎ List (Option B) → (ℕ → Option V) → Outcome × (ℕ → Option V)
  unfolding load
  load_all t zero_value keys (inl e) dst = (failed (backend e), dst)
  load_all t zero_value keys (inr values) dst = load t zero_value keys values dst

  -- `GetMulti` and `MustGetMulti`.
  unfoldable pub get_multi : Target → T → V → C → List ℕ → (ℕ → Option V) → Outcome × (ℕ → Option V)
  unfolding load_all
  get_multi target t zero_value c keys dst = elim target [
    | no_map ↦ (failed bad_dst_map_type, dst)
    | nil_map ↦ (failed bad_dst_map_value, dst)
    | nil_map_ptr ↦ load_all t zero_value keys (mget c keys) (λ _. none)
    | some_map ↦ load_all t zero_value keys (mget c keys) dst
    | some_map_ptr ↦ load_all t zero_value keys (mget c keys) dst
  ]

  unfoldable pub must_get_multi :
      Target → T → V → C → List ℕ → (ℕ → Option V) → Outcome × (ℕ → Option V)
  unfolding get_multi must
  must_get_multi target t zero_value c keys dst =
      let (o, dst') = get_multi target t zero_value c keys dst in (must o, dst')

  -- `Exists` and `MustExists`, whose `none` is a panic.
  unfoldable pub exists : C → ℕ → Bool × Option ℕ
  exists c key = let (n, err) = client.exists c key in (not (n == 0), err)

  unfoldable pub must_exists : C → ℕ → Option Bool
  unfolding exists
  must_exists c key =
      let (there, err) = exists c key in elim err [ none ↦ some there | some e ↦ none ]

  unfoldable pub counted : ℕ ⊎ List ℕ → List Bool × Option ℕ
  counted (inl e) = ([], some e)
  counted (inr ns) = (map (λ n. not (n == 0)) ns, none)

  -- `ExistsMulti` and `MustExistsMulti`.
  unfoldable pub exists_multi : C → List ℕ → List Bool × Option ℕ
  unfolding counted
  exists_multi c [] = ([], none)
  exists_multi c (key ∷ keys) = counted (pipeline_exists c (key ∷ keys))

  unfoldable pub must_exists_multi : C → List ℕ → Option (List Bool)
  unfolding exists_multi
  must_exists_multi c keys =
      let (there, err) = exists_multi c keys in elim err [ none ↦ some there | some e ↦ none ]

  unfoldable pub send : C → ℕ → ℕ → ℕ ⊎ B → Outcome × C
  send c key ttl (inl e) = (failed (backend e), c)
  send c key ttl (inr buf) = (outcome_of (client.set c key buf ttl).0, (client.set c key buf ttl).1)

  -- `Set` and `MustSet`.
  unfoldable pub set : C → ℕ → V → ℕ → Outcome × C
  unfolding send
  set c key v ttl = send c key ttl (encode v)

  unfoldable pub must_set : C → ℕ → V → ℕ → Outcome × C
  unfolding set must
  must_set c key v ttl = let (o, c') = set c key v ttl in (must o, c')

  unfoldable pub queue : ℕ → ℕ ⊎ B → ℕ ⊎ List (ℕ × B) → ℕ ⊎ List (ℕ × B)
  queue key (inl e) rest = inl e
  queue key (inr buf) (inl e) = inl e
  queue key (inr buf) (inr cmds) = inr ((key, buf) ∷ cmds)

  -- The commands that the function in `SetMulti` puts into the pipeline, or the first error of `encode`.
  unfoldable pub commands : List ℕ → List V → ℕ ⊎ List (ℕ × B)
  unfolding queue
  commands (key ∷ keys) (v ∷ vs) = queue key (encode v) (commands keys vs)
  commands [] vs = inr []
  commands (key ∷ keys) [] = inr []

  -- `Pipelined`: nothing is sent if the function returns an error.
  unfoldable pub pipelined : C → ℕ → ℕ ⊎ List (ℕ × B) → Outcome × C
  pipelined c ttl (inl e) = (failed (backend e), c)
  pipelined c ttl (inr cmds) = (outcome_of (pipeline_set c cmds ttl).0, (pipeline_set c cmds ttl).1)

  -- `SetMulti` and `MustSetMulti`.
  unfoldable pub set_multi : C → List ℕ → Bool → List V → ℕ → Outcome × C
  unfolding pipelined commands
  set_multi c keys is_slice values ttl =
      if not is_slice
      then (failed bad_src_type, c)
      else if not (length values == length keys)
      then (failed keys_length_not_match, c)
      else pipelined c ttl (commands keys values)

  unfoldable pub must_set_multi : C → List ℕ → Bool → List V → ℕ → Outcome × C
  unfolding set_multi must
  must_set_multi c keys is_slice values ttl =
      let (o, c') = set_multi c keys is_slice values ttl in (must o, c')

  -- `Delete` and `MustDelete`.
  unfoldable pub delete : C → List ℕ → Outcome × C
  delete c [] = (done, c)
  delete c (key ∷ keys) = (outcome_of (del c (key ∷ keys)).0, (del c (key ∷ keys)).1)

  unfoldable pub must_delete : C → List ℕ → Outcome × C
  unfolding delete must
  must_delete c keys = let (o, c') = delete c keys in (must o, c')
