-- ===== src/Store/Redis/Tests.antt =====
-- onecache/store/redis.go, serializer.go: runs over a Redis that is a map from keys to numbers, and a
-- serializer that adds one.
use eins.Prelude.{
  ℕ, ◌+◌, ◌-◌, ◌≡◌, ◌≢◌, refl, Option, none, some, List, [], ◌∷◌, map, arith, if◌then◌else◌, ◌⊎◌,
  inl, inr, length, sym, ap, true, false, ◌==◌, ℕ_discrete,
}
use eins.Cache.Multi.{put_at, write_all, some_map}
use eins.Cache.{World, CacheConfig, ok}
use eins.Cache.Writes.{pairs}
use eins.Cache.Multi.{Shapes, Found, FetchedMulti, no_value, without_nil, values_of, keys_of}
use eins.Cache.Multi as Multi
use eins.Store.Redis.CachedMulti.{get_multi-get_multi}
use eins.Store.Redis.Cached.{over_redis}
use eins.Store.{done}
use eins.Store.Redis.{RedisClient, Serializer, set_multi, get_multi, delete}
use eins.Store.Redis.Spec.{
  has_key, Reads, IsServer, values, Loads, set_multi-writes, get_multi-Loads,
}

abbrev Server : Type 0
Server = ℕ → Option ℕ

abbrev found : Option ℕ → ℕ ⊎ ℕ
found none = inl 0
found (some b) = inr b

abbrev count_there : Option ℕ → ℕ
count_there none = 0
count_there (some b) = 1

abbrev read_many : Server → List ℕ → ℕ ⊎ List (Option ℕ)
read_many c [] = inl 8
read_many c (k ∷ ks) = inr (map c (k ∷ ks))

abbrev server : RedisClient Server ℕ
server = record {
  get = λ c k. found (c k);
  mget = read_many;
  exists = λ c k. (count_there (c k), none);
  pipeline_exists = λ c ks. inr (map (λ k. count_there (c k)) ks);
  set = λ c k b ttl. (none, put_at c k b);
  pipeline_set = λ c cmds ttl. (none, write_all cmds c);
  del = λ c ks. (none, λ j. if has_key j ks then none else c j);
}

abbrev view : Server → ℕ → Option ℕ
view c k = c k

some_read : (c : Server) (keys : List ℕ) → keys ≢ [] → server.mget c keys ≡ inr (map (view c) keys)
some_read c [] some_keys = absurd (some_keys refl)
some_read c (k ∷ keys) some_keys = refl

server-IsServer : IsServer server view
server-IsServer = record {
  mget_reads = some_read;
  mget_nothing = λ c. (8, refl);
  pipeline_writes = λ c c' cmds ttl e j. ap (λ (r : Option ℕ × Server). r.1 j) (sym e);
  del_removes = λ c c' keys e j. ap (λ (r : Option ℕ × Server). r.1 j) (sym e);
}

abbrev adds_one : Serializer ℕ ℕ ℕ
adds_one = record { decode = λ b t. (none, some (b - 1)); encode = λ v. inr (v + 1) }

abbrev empty : Server
empty k = none

abbrev holds_two : Server
holds_two = write_all ((3, 12) ∷ (4, 23) ∷ []) empty

sent_two : set_multi server adds_one empty (3 ∷ 4 ∷ []) true (11 ∷ 22 ∷ []) 60 ≡ (done, holds_two)
unfolding set_multi
sent_two = refl

abbrev two_keys : List ℕ
two_keys = 3 ∷ 4 ∷ []

abbrev two_values : List ℕ
two_values = 11 ∷ 22 ∷ []

set_multi-writes_example :
    (length two_values ≡ length two_keys)
    × (values server adds_one view 0 holds_two 3
        ≡ write_all (pairs two_keys two_values) (values server adds_one view 0 empty) 3)
set_multi-writes_example =
    set_multi-writes server adds_one view 0 empty holds_two two_keys two_values 60 3 server-IsServer
      ((λ src e. ground arith), ((λ src e. ground arith), tt)) sent_two

all_read : (entry : Option ℕ) → Reads server adds_one view 0 entry
all_read none = tt
all_read (some b) = (b - 1, refl)

get_multi-Loads_example :
    Loads server adds_one view 0 holds_two
      (4 ∷ 5 ∷ [])
      (λ k. none)
      4
      (get_multi server adds_one some_map 0 0 holds_two (4 ∷ 5 ∷ []) (λ k. none))
get_multi-Loads_example =
    get_multi-Loads server adds_one view 0 0 holds_two (4 ∷ 5 ∷ []) (λ k. none) 4 server-IsServer
      (λ e. ground arith) (λ k. all_read (view holds_two k))

abbrev without_three : Server
without_three j = if has_key j (3 ∷ []) then none else holds_two j

deleted_three : delete server adds_one holds_two (3 ∷ []) ≡ (done, without_three)
unfolding delete
deleted_three = refl

abbrev plain : World Server ℕ ℕ ℕ
plain = record {
  store_get = λ c k t. ((none, none), c);
  store_set = λ c k v ttl. (none, c);
  store_delete = λ c ks. (none, c);
  store_get_multi = λ c ks. ((none, λ k. none), c);
  store_set_multi = λ c ks vs ttl. (none, c);
  take_available = λ l n. (n, l);
  typ = λ v. 0;
  kind = λ t. t;
  indirect_kind = λ t. t;
  elem_kind = λ v. 0;
  assignable = λ v t. true;
}

abbrev config : CacheConfig
config = record { expire = 60; fallback_when_error = false; limited = false }

-- Redis has a value of the id 3 only, and the fallback brings one of 4.
abbrev holds_one : Server
holds_one = put_at empty 3 12

abbrev into_map : Shapes
into_map = record {
  target = some_map;
  ids_slice = true;
  id_kind = 1;
  key_kind = 1;
  value_kind = 7;
  ids_fit = true;
}

abbrev brings_four : List ℕ → Found ℕ
brings_four ms = record { key_kind = 1; value_kind = 7; fits = true; entries = (4, 22) ∷ [] }

get_multi-get_multi_example :
    let w = over_redis server adds_one plain 0 0 0 in
    let r =
      Multi.get_multi w
        (λ id. id)
        (λ v. v == 0)
        config
        into_map
        holds_one
        0
        two_keys
        (λ k. none)
        60
        (λ ms. FetchedMulti.found (brings_four ms)) in
    let r' =
      Multi.get_multi w
        (λ id. id)
        (λ v. v == 0)
        config
        into_map
        r.store
        r.limiter
        two_keys
        (λ k. none)
        60
        (λ ms. no_value) in
    (r.verdict ≡ ok)
    × (r'.verdict ≡ ok)
    × (r'.asked ≡ none)
    × (r'.store ≡ r.store)
    × (v : ℕ) × (r.dst 4 ≡ some v)
    × (r'.dst 4 ≡ some v)
unfolding set_multi ℕ_discrete without_nil values_of keys_of
get_multi-get_multi_example =
    get_multi-get_multi server adds_one view plain 0 0 0 (λ id. id) (λ v. v == 0) config config
      into_map into_map holds_one 0 two_keys (λ k. none) (λ k. none) 60 60 brings_four
      (λ ms. no_value) 4 server-IsServer (λ v src e. ground arith) (λ i k e. e)
      (λ k. all_read (holds_one k)) (refl, refl, refl, refl) (refl, refl, refl, refl)
      (λ e. ground arith) (λ ms. (refl, refl, refl)) refl (λ i e. ground arith) refl
