-- ===== src/Store/Redis/Contract/Tests.antt =====
-- onecache/store/redis.go: the contract over a Redis that is a map, and a serializer that adds one.
use eins.Prelude.{ℕ, ◌+◌, ◌-◌, refl, true, Option, none, some, map, if◌then◌else◌, arith, inr}
use eins.Cache.{World}
use eins.Cache.Multi.{put_at, write_all}
use eins.Cache.ReadThrough.{IsMap}
use eins.Store.Redis.{RedisClient, Serializer}
use eins.Store.Redis.Spec.{has_key}
use eins.Store.Redis.Cached.{over_redis}
use eins.Store.Redis.Contract.{reply_of, IsKeyed, returning, content, over_redis-IsMap}

abbrev Server : Type 0
Server = ℕ → Option ℕ

abbrev count_there : Option ℕ → ℕ
count_there none = 0
count_there (some b) = 1

abbrev server : RedisClient Server ℕ
server = record {
  get = λ c k. reply_of 9 (c k);
  mget = λ c ks. inr (map c ks);
  exists = λ c k. (count_there (c k), none);
  pipeline_exists = λ c ks. inr (map (λ k. count_there (c k)) ks);
  set = λ c k b ttl. (none, put_at c k b);
  pipeline_set = λ c cmds ttl. (none, write_all cmds c);
  del = λ c ks. (none, λ j. if has_key j ks then none else c j);
}

abbrev view : Server → ℕ → Option ℕ
view c k = c k

server-IsKeyed : IsKeyed server view 9
server-IsKeyed = record {
  get_reads = λ c k. refl;
  set_writes = λ c k src ttl. (refl, λ j. refl);
  del_removes = λ c k. (refl, λ j. ground arith);
}

abbrev adds_one : Serializer ℕ ℕ ℕ
adds_one = record { decode = λ b t. (none, some (b - 1)); encode = λ v. inr (v + 1) }

abbrev plain : World Server ℕ ℕ ℕ
plain = record {
  store_get = λ c k t. ((none, none), c);
  store_set = λ c k v ttl. (none, c);
  store_delete = λ c ks. (none, c);
  store_get_multi = λ c ks. ((none, λ k. none), c);
  store_set_multi = λ c ks vs ttl. (none, c);
  take_available = λ l n. (n, l);
  typ = λ v. 0;
  kind = λ t. t;
  indirect_kind = λ t. t;
  elem_kind = λ v. 0;
  assignable = λ v t. true;
}

over_redis-IsMap_example :
    IsMap
      (over_redis server adds_one plain 9 0 0)
      0
      (returning server adds_one plain 9 0 0 view)
      (content server adds_one plain 9 0 0 view)
over_redis-IsMap_example = over_redis-IsMap server adds_one plain 9 0 0 view server-IsKeyed
