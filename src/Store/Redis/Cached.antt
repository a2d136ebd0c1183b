-- ===== src/Store/Redis/Cached.antt =====
-- onecache/box.go over onecache/store/redis.go: the cache with `RedisStore` as its store. `base` gives
-- the limiter and what `reflect` says; `nil_reply` is the error `redis.Nil`, `t` and `zero_value` are the
-- type of the values of a map and its zero.
use eins.Prelude.{ℕ, true, Option, none, some, if◌then◌else◌, ◌==◌}
use eins.Cache.{CacheError, not_found, store_failed, World, Dst}
use eins.Cache.Multi.{some_map_ptr}
use eins.Store.{
  StoreError, bad_src_type, keys_length_not_match, bad_dst_type, bad_dst_map_type,
  bad_dst_map_value, src_dst_type_mismatch, backend, Outcome, done, panicked, failed,
}
use eins.Store.Redis.{RedisClient, Serializer, get, set, delete, get_multi, set_multi}

-- What an error of the store is to the cache, which knows `redis.Nil` as a missing key.
abbrev pub cache_error : ℕ → StoreError → CacheError
cache_error nil_reply bad_src_type = CacheError.bad_src_type
cache_error nil_reply keys_length_not_match = CacheError.bad_src_type
cache_error nil_reply bad_dst_type = CacheError.bad_dst_type
cache_error nil_reply bad_dst_map_type = CacheError.bad_dst_map_type
cache_error nil_reply bad_dst_map_value = CacheError.bad_dst_map_value
cache_error nil_reply src_dst_type_mismatch = CacheError.src_dst_type_mismatch
cache_error nil_reply (backend e) = if e == nil_reply then not_found else store_failed e

abbrev pub error_of : ℕ → Outcome → Option CacheError
error_of nil_reply done = none
error_of nil_reply panicked = none
error_of nil_reply (failed e) = some (cache_error nil_reply e)

abbrev pub place_for : {V T : Type 0} → T → Dst V T
place_for t = record { is_ptr = true; target = t; content = none }

module _ {C L V T B : Type 0} (client : RedisClient C B) (serializer : Serializer V T B)
    (base : World C L V T) (nil_reply : ℕ) (t : T) (zero_value : V) where
  abbrev pub over_redis : World C L V T
  over_redis = record base {
    store_get = λ c key target. (
      (
        error_of nil_reply (get client serializer c key (place_for target)).0,
        (get client serializer c key (place_for target)).1.content,
      ),
      c,
    );
    store_set = λ c key v ttl. (
      error_of nil_reply (set client serializer c key v ttl).0,
      (set client serializer c key v ttl).1,
    );
    store_delete = λ c keys. (
      error_of nil_reply (delete client serializer c keys).0,
      (delete client serializer c keys).1,
    );
    store_get_multi = λ c keys. (
      (
        error_of nil_reply
            (get_multi client serializer some_map_ptr t zero_value c keys (λ _. none)).0,
        (get_multi client serializer some_map_ptr t zero_value c keys (λ _. none)).1,
      ),
      c,
    );
    store_set_multi = λ c keys vs ttl. (
      error_of nil_reply (set_multi client serializer c keys true vs ttl).0,
      (set_multi client serializer c keys true vs ttl).1,
    );
  }
