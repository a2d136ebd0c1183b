-- ===== src/Store/Redis/Contract.antt =====
-- onecache/store/redis.go: `RedisStore` keeps the contract that the cache wants of a store.
mod Tests
use eins.Prelude.{
  ℕ, ◌≡◌, refl, sym, ap, ◌∙◌, Bool, true, false, Option, none, some, List, [], ◌∷◌, arith, ==_iff,
  Option-cases, Bool-cases, inl, inr, ◌⊎◌, if◌then◌else◌, ◌==◌,
}
use mathlib.Core.Path.{ap₂}
use eins.Cache.{CacheError, not_found, World}
use eins.Cache.Multi.{put_at}
use eins.Cache.ReadThrough.{Terms, IsMap, removed}
use eins.Store.{Outcome, done}
use eins.Store.Redis.{RedisClient, Serializer, outcome_of, get, decoded, set, send, delete}
use eins.Store.Redis.Cached.{over_redis, cache_error, error_of, place_for}

abbrev pub reply_of : {B : Type 0} → ℕ → Option B → ℕ ⊎ B
reply_of nil_reply none = inl nil_reply
reply_of nil_reply (some src) = inr src

-- What Redis documents of single keys, with `view` for its content, while it answers without errors and
-- nothing expires; a key that is not there has the reply `redis.Nil`.
pub record IsKeyed {C B : Type 0} (client : RedisClient C B) (view : C → ℕ → Option B)
    (nil_reply : ℕ) : Type 0 where
  pub get_reads : (c : C) (k : ℕ) → client.get c k ≡ reply_of nil_reply (view c k)
  pub set_writes :
      (c : C) (k : ℕ) (src : B) (ttl : ℕ)
      → ((client.set c k src ttl).0 ≡ none)
        × ((j : ℕ) → view (client.set c k src ttl).1 j ≡ put_at (view c) k src j)
  pub del_removes :
      (c : C) (k : ℕ)
      → ((client.del c (k ∷ [])).0 ≡ none)
        × ((j : ℕ) → view (client.del c (k ∷ [])).1 j ≡ removed (view c) k j)

module _ {C L V T B : Type 0} (client : RedisClient C B) (serializer : Serializer V T B)
    (base : World C L V T) (nil_reply : ℕ) (t : T) (zero_value : V) (view : C → ℕ → Option B) where
  abbrev w : World C L V T
  w = over_redis client serializer base nil_reply t zero_value

  abbrev read : Option B → Option V
  read none = none
  read (some src) = (serializer.decode src t).1

  -- The values of the type `t` that the store has.
  abbrev pub content : C → ℕ → Option V
  content c k = read (view c k)

  -- The terms: any keys, values that come back from their encoding, and a Redis whose bytes are those of
  -- values.
  abbrev pub returning : Terms C V
  returning = record {
    known = λ k. Unit;
    good = λ v.
        (src : B) × (serializer.encode v ≡ inr src) × (serializer.decode src t ≡ (none, some v));
    valid = λ c.
        (k : ℕ) (src : B)
        → view c k ≡ some src
        → (v : V) × (serializer.decode src t ≡ (none, some v));
  }

  module _ (h : IsKeyed client view nil_reply) where
    store_get-there :
        (c : C) (k : ℕ) (v : V)
        → returning.valid c
        → content c k ≡ some v
        → (w.store_get c k t).0 ≡ (none, some v)
    unfolding get decoded
    store_get-there c k v valid there = elim (Option-cases (view c k)) [
      | inl absent ↦ ground (arith, absent, there)
      | inr (src, found) ↦
          let (u, back) = valid k src found in ground (arith, h.get_reads c k, found, back, there)
    ]

    store_get-missing :
        (c : C) (k : ℕ)
        → returning.valid c
        → content c k ≡ none
        → (w.store_get c k t).0 ≡ (some not_found, none)
    unfolding get decoded
    store_get-missing c k valid gone = elim (Option-cases (view c k)) [
      | inl absent ↦ ground (arith, h.get_reads c k, absent, ==_iff nil_reply nil_reply)
      | inr (src, found) ↦ let (u, back) = valid k src found in ground (arith, found, back, gone)
    ]

    store_set-writes :
        (c : C) (k : ℕ) (v : V) (ttl : ℕ)
        → returning.valid c
        → returning.good v
        → ((w.store_set c k v ttl).0 ≡ none)
          × returning.valid (w.store_set c k v ttl).1
          × ((j : ℕ) → content (w.store_set c k v ttl).1 j ≡ put_at (content c) k v j)
    unfolding set send
    store_set-writes c k v ttl valid (src, coded, back) =
        let (sent, written) = h.set_writes c k src ttl in
        let still : returning.valid (client.set c k src ttl).1 =
          λ j src' there. still_valid j (sym (written j) ∙ there) in
        (
          rw coded (rw sent refl),
          rw coded still,
          λ j. rw coded (ap read (written j) ∙ ground (arith, back)),
        )
      where
        still_valid :
            (j : ℕ) {src' : B}
            → put_at (view c) k src j ≡ some src'
            → (u : V) × (serializer.decode src' t ≡ (none, some u))
        still_valid j {src'} there = elim (Bool-cases (k == j)) [
          | inl here ↦ (v, ground (arith, here, there, back))
          | inr other ↦ valid j src' (ground (arith, other, there))
        ]

    store_delete-removes :
        (c : C) (k : ℕ)
        → returning.valid c
        → ((w.store_delete c (k ∷ [])).0 ≡ none)
          × returning.valid (w.store_delete c (k ∷ [])).1
          × ((j : ℕ) → content (w.store_delete c (k ∷ [])).1 j ≡ removed (content c) k j)
    unfolding delete
    store_delete-removes c k valid =
        let (sent, gone) = h.del_removes c k in
        let still : returning.valid (client.del c (k ∷ [])).1 =
          λ j src there. valid j src (left j (sym (gone j) ∙ there)) in
        (rw sent refl, still, λ j. ap read (gone j) ∙ ground arith)
      where
        left : (j : ℕ) {src : B} → removed (view c) k j ≡ some src → view c j ≡ some src
        left j there = ground (arith, there)

  -- `RedisStore` keeps the contract of a map for the values of one type that come back from their encoding,
  -- over a Redis that does what it documents and holds the bytes of such values only.
  pub over_redis-IsMap : IsKeyed client view nil_reply → IsMap w t returning content
  over_redis-IsMap h = record {
    get_there = store_get-there h;
    get_missing = store_get-missing h;
    get_keeps = λ c k valid. (valid, λ j. refl);
    set_writes = λ c k v ttl valid known good. store_set-writes h c k v ttl valid good;
    delete_removes = store_delete-removes h;
  }
