-- ===== src/Store/Redis/Spec.antt =====
-- onecache/store/redis.go: over a Redis that works, `RedisStore` is a map from keys to values.
use eins.Prelude.{
  ℕ, ◌≡◌, ◌≢◌, refl, sym, ap, ◌∙◌, Bool, true, false, ◌||◌, Option, none, some, List, [], ◌∷◌, map,
  arith, ==_iff, if◌then◌else◌, ◌==◌, ◌⊎◌, inl, inr, length,
}
use eins.Cache.Multi.{put_at, write_all, some_map}
use eins.Cache.Hits.{or_else}
use eins.Cache.Writes.{pairs, write_all_pointwise}
use eins.Store.{Outcome, done, failed, backend}
use eins.Store.Redis.{
  RedisClient, Serializer, outcome_of, place, load, load_all, get_multi, queue, commands, pipelined,
  set_multi, delete,
}

abbrev pub has_key : ℕ → List ℕ → Bool
has_key j [] = false
has_key j (k ∷ ks) = (k == j) || has_key j ks

-- What Redis documents, with `view` for its content: a set command writes its key, a pipeline all of
-- its commands in their order, and `mget` reads, but without keys it is an error.
pub record IsServer {C B : Type 0} (client : RedisClient C B) (view : C → ℕ → Option B)
    : Type 0 where
  pub mget_reads :
      (c : C) (keys : List ℕ) → keys ≢ [] → client.mget c keys ≡ inr (map (view c) keys)
  pub mget_nothing : (c : C) → (e : ℕ) × (client.mget c [] ≡ inl e)
  pub pipeline_writes :
      (c c' : C) (cmds : List (ℕ × B)) (ttl : ℕ)
      → client.pipeline_set c cmds ttl ≡ (none, c')
      → (j : ℕ) → view c' j ≡ write_all cmds (view c) j
  pub del_removes :
      (c c' : C) (keys : List ℕ)
      → client.del c keys ≡ (none, c')
      → (j : ℕ) → view c' j ≡ (if has_key j keys then none else view c j)

module _ {C V T B : Type 0} (client : RedisClient C B) (serializer : Serializer V T B)
    (view : C → ℕ → Option B) (t : T) where
  open client use {mget, pipeline_set, del}
  open serializer use {decode, encode}

  abbrev pub read : Option B → Option V
  read none = none
  read (some src) = (decode src t).1

  -- The map that the store stands for: the values of the type `t` that its bytes decode to.
  abbrev pub values : C → ℕ → Option V
  values c k = read (view c k)

  -- What is decoded under the key `k` is a value.
  abbrev pub Reads : Option B → Type 0
  Reads none = Unit
  Reads (some src) = (v : V) × (decode src t ≡ (none, some v))

  -- The values of a list are encoded and come back.
  abbrev pub AllReturn : List V → Type 0
  AllReturn [] = Unit
  AllReturn (v ∷ vs) =
      ((src : B) → encode v ≡ inr src → decode src t ≡ (none, some v)) × AllReturn vs

  abbrev Stores : ℕ ⊎ List (ℕ × B) → List (ℕ × V) → Type 0
  Stores (inl e) es = Unit
  Stores (inr cmds) es =
      (f : ℕ → Option B) (j : ℕ) → read (write_all cmds f j) ≡ write_all es (λ k. read (f k)) j

  queue-Stores :
      (key : ℕ) (v : V) (es : List (ℕ × V)) (coded : ℕ ⊎ B) (rest : ℕ ⊎ List (ℕ × B))
      → ((src : B) → coded ≡ inr src → decode src t ≡ (none, some v))
      → Stores rest es
      → Stores (queue client serializer key coded rest) ((key, v) ∷ es)
  unfolding queue write_all
  queue-Stores key v es (inl e) rest back h = tt
  queue-Stores key v es (inr src) (inl e) back h = tt
  queue-Stores key v es (inr src) (inr cmds) back h = λ f j.
      h (put_at f key src) j
      ∙ write_all_pointwise es (λ k. read (put_at f key src k)) (put_at (λ k. read (f k)) key v) j
          (λ i. ground (arith, back src refl))

  commands-Stores :
      (keys : List ℕ) (vs : List V)
      → AllReturn vs
      → Stores (commands client serializer keys vs) (pairs keys vs)
  unfolding commands write_all
  commands-Stores [] vs h = λ f j. refl
  commands-Stores (key ∷ keys) [] h = λ f j. refl
  commands-Stores (key ∷ keys) (v ∷ vs) (back, h) =
      queue-Stores key v (pairs keys vs) (encode v) (commands client serializer keys vs) back
        (commands-Stores keys vs h)

  pub outcome-done : (err : Option ℕ) → outcome_of err ≡ done → err ≡ none
  outcome-done none e = refl
  outcome-done (some x) e = ground arith

  pipelined-writes :
      (c c' : C) (ttl : ℕ) (es : List (ℕ × V)) (cmds : ℕ ⊎ List (ℕ × B)) (j : ℕ)
      → IsServer client view
      → Stores cmds es
      → pipelined client serializer c ttl cmds ≡ (done, c')
      → values c' j ≡ write_all es (values c) j
  unfolding pipelined
  pipelined-writes c c' ttl es (inl e) j h w sent = ground arith
  pipelined-writes c c' ttl es (inr cmds) j h w sent =
      let no_error : (pipeline_set c cmds ttl).0 ≡ none =
        outcome-done (pipeline_set c cmds ttl).0 (ap (λ (r : Outcome × C). r.0) sent) in
      let reply : pipeline_set c cmds ttl ≡ (none, c') = ground arith in
      rw (h.pipeline_writes c c' cmds ttl reply j) (w (view c) j)

  -- A `SetMulti` that ends without an error has written the values under their keys, a later one of the
  -- same key over an earlier one, and changed nothing else, if the pipeline does what its commands say
  -- and each value comes back from its encoding.
  pub set_multi-writes :
      (c c' : C) (keys : List ℕ) (vs : List V) (ttl j : ℕ)
      → IsServer client view
      → AllReturn vs
      → set_multi client serializer c keys true vs ttl ≡ (done, c')
      → (length vs ≡ length keys) × (values c' j ≡ write_all (pairs keys vs) (values c) j)
  unfolding set_multi
  set_multi-writes c c' keys vs ttl j h back sent = (
    ground (arith, ==_iff (length vs) (length keys)),
    pipelined-writes c c' ttl (pairs keys vs) (commands client serializer keys vs) j h
        (commands-Stores keys vs back) (ground arith),
  )

  -- What a load of the keys leaves under `j`: the store's value if `j` is one of them and is there.
  abbrev pub Loads : C → List ℕ → (ℕ → Option V) → ℕ → Outcome × (ℕ → Option V) → Type 0
  Loads c keys dst j r =
      (r.0 ≡ done) × (r.1 j ≡ (if has_key j keys then or_else (values c j) (dst j) else dst j))

  load-entry :
      (zero_value : V) (c : C) (key : ℕ) (keys : List ℕ) (dst : ℕ → Option V) (j : ℕ)
      (entry : Option B)
      → view c key ≡ entry
      → Reads entry
      → ((dst' : ℕ → Option V)
          → Loads c keys dst' j (load client serializer t zero_value keys (map (view c) keys) dst'))
      → Loads c
          (key ∷ keys)
          dst
          j
          (load client serializer t zero_value (key ∷ keys) (entry ∷ map (view c) keys) dst)
  unfolding load place
  load-entry zero_value c key keys dst j none e readable rest =
      let same : key ≡ j → values c j ≡ none =
        λ h. ap (λ (k : ℕ). values c k) (sym h) ∙ ap read e in
      ((rest dst).0, ground (arith, ==_iff key j, same, rest dst))
  load-entry zero_value c key keys dst j (some src) e (v, back) rest =
      let same : key ≡ j → values c j ≡ some v = λ h.
        ap (λ (k : ℕ). values c k) (sym h)
        ∙ ap read e
        ∙ ap (λ (r : Option ℕ × Option V). r.1) back in
      (
        ground (arith, back, rest (put_at dst key v)),
        ground (arith, ==_iff key j, same, back, rest (put_at dst key v)),
      )

  load-Loads :
      (zero_value : V) (c : C) (keys : List ℕ) (dst : ℕ → Option V) (j : ℕ)
      → ((k : ℕ) → Reads (view c k))
      → Loads c keys dst j (load client serializer t zero_value keys (map (view c) keys) dst)
  unfolding load
  load-Loads zero_value c [] dst j readable = (refl, refl)
  load-Loads zero_value c (key ∷ keys) dst j readable =
      load-entry zero_value c key keys dst j (view c key) refl (readable key)
        λ dst'. load-Loads zero_value c keys dst' j readable

  -- `GetMulti` of some keys into a map leaves under each key what the store has there, and leaves the rest
  -- of the map alone, also the keys that the store does not have, if all that the store has can be decoded.
  pub get_multi-Loads :
      (zero_value : V) (c : C) (keys : List ℕ) (dst : ℕ → Option V) (j : ℕ)
      → IsServer client view
      → keys ≢ []
      → ((k : ℕ) → Reads (view c k))
      → Loads c keys dst j (get_multi client serializer some_map t zero_value c keys dst)
  unfolding get_multi load_all
  get_multi-Loads zero_value c keys dst j h some_keys readable =
      rw (h.mget_reads c keys some_keys) (load-Loads zero_value c keys dst j readable)

  -- `GetMulti` of no keys fails with the error of Redis, and leaves the map alone.
  get_multi_nothing :
      (zero_value : V) (c : C) (dst : ℕ → Option V)
      → IsServer client view
      → (e : ℕ) × (get_multi client serializer some_map t zero_value c [] dst
          ≡ (failed (backend e), dst))
  unfolding get_multi load_all
  get_multi_nothing zero_value c dst h = let (e, refused) = h.mget_nothing c in (e, rw refused refl)

  -- After a `Delete` without an error the deleted keys are gone, and the others have what they had.
  delete-removes :
      (c c' : C) (keys : List ℕ) (j : ℕ)
      → IsServer client view
      → delete client serializer c keys ≡ (done, c')
      → values c' j ≡ (if has_key j keys then none else values c j)
  unfolding delete
  delete-removes c c' [] j h sent = ap (λ (r : Outcome × C). values r.1 j) (sym sent)
  delete-removes c c' (key ∷ keys) j h sent =
      let no_error : (del c (key ∷ keys)).0 ≡ none =
        outcome-done (del c (key ∷ keys)).0 (ap (λ (r : Outcome × C). r.0) sent) in
      let reply : del c (key ∷ keys) ≡ (none, c') = ground arith in
      rw (h.del_removes c c' (key ∷ keys) reply j) (ground arith)
