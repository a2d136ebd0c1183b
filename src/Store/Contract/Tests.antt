-- ===== src/Store/Contract/Tests.antt =====
-- onecache/store/gcache.go, box.go: the store and the cache over one place for a key and a number, where a pointer
-- to a number is ten times it.
use eins.Prelude.{
  ℕ, ◌≡◌, refl, Bool, true, false, Option, none, some, List, [], ◌∷◌, arith, ◌/◌, ◌*◌, ◌==◌, ==_iff,
  ◌≤◌, length, if◌then◌else◌, ℕ_discrete,
}
use eins.Cache.{World, CacheConfig}
use eins.Cache.ReadThrough.{
  IsMap, AllMeant, Op, gets, evicts, refreshes, replay, run, run_refines, removed,
}
use eins.Cache.Multi.{put_at}
use eins.Store.{Gcache, Values}
use eins.Store.Redis.Spec.{has_key}
use eins.Store.Contract.{IsLru, answer_of, over_local, pointed, content, over_local-IsMap}

-- A cache of the kind LRU with one place.
abbrev Place : Type 0
Place = Option (ℕ × ℕ)

abbrev held : Place → ℕ → Option ℕ
held none j = none
held (some (k, v)) j = if k == j then some v else none

abbrev present : Option ℕ → Bool
present none = false
present (some v) = true

abbrev freed : Place → ℕ → Place
freed none j = none
freed (some (k, v)) j = if j == k then none else some (k, v)

abbrev one_place : Gcache Place ℕ
one_place = record {
  lookup = λ g k. (answer_of 9 (held g k), g);
  has = λ g k. present (held g k);
  set_with_expire = λ g k v ttl. (none, some (k, v));
  remove = freed;
}

only_key :
    (keys : List ℕ) (j k : ℕ)
    → length keys ≤ 1
    → has_key j keys ≡ true
    → has_key k keys ≡ true
    → j ≡ k
only_key [] j k room there here = ground arith
only_key (m ∷ []) j k room there here = ground (arith, ==_iff m j, ==_iff m k)
only_key (m ∷ n ∷ keys) j k room there here = absurd (omega arith)

one_place_writes :
    (g : Place) (keys : List ℕ) (k v : ℕ)
    → length keys ≤ 1
    → ((j u : ℕ) → held g j ≡ some u → has_key j keys ≡ true)
    → has_key k keys ≡ true
    → (j : ℕ) → held (some (k, v)) j ≡ put_at (held g) k v j
one_place_writes none keys k v room known here j = refl
one_place_writes (some (m, u)) keys k v room known here j =
    let same = only_key keys m k room (known m u (ground (arith, ==_iff m m))) here in
    ground (arith, same, ==_iff m j, ==_iff k j)

freed-removes : (g : Place) (k j : ℕ) → held (freed g k) j ≡ removed (held g) k j
freed-removes none k j = ground arith
freed-removes (some (m, v)) k j = ground (arith, ==_iff k m, ==_iff m j, ==_iff k j)

one_place-IsLru : IsLru one_place held 9 1
one_place-IsLru = record {
  lookup_reads = λ g k. refl;
  lookup_keeps = λ g k j. refl;
  set_writes =
      λ g keys k v ttl room known here. (refl, one_place_writes g keys k v room known here);
  remove_removes = freed-removes;
}

abbrev tenths : Values ℕ ℕ
tenths = record {
  indirect = λ v. some (v / 10);
  typ = λ v. 1;
  indirect_kind = λ t. 7;
  assignable = λ v t. true;
}

abbrev times_ten : ℕ → ℕ
times_ten v = v * 10

abbrev plain : World Place ℕ ℕ ℕ
plain = record {
  store_get = λ g k t. ((none, none), g);
  store_set = λ g k v ttl. (none, g);
  store_delete = λ g ks. (none, g);
  store_get_multi = λ g ks. ((none, λ k. none), g);
  store_set_multi = λ g ks vs ttl. (none, g);
  take_available = λ l n. (n, l);
  typ = λ v. 1;
  kind = λ t. 7;
  indirect_kind = λ t. 7;
  elem_kind = λ v. 7;
  assignable = λ v t. true;
}

over_local-IsMap_example :
    IsMap
      (over_local one_place tenths plain 9 times_ten 1)
      1
      (pointed one_place tenths plain 9 times_ten 1 held (4 ∷ []))
      (content one_place tenths plain 9 times_ten 1 held (4 ∷ []))
over_local-IsMap_example =
    over_local-IsMap one_place tenths plain 9 times_ten 1 held (4 ∷ []) one_place-IsLru
      (omega arith)

abbrev config : CacheConfig
config = record { expire = 60; fallback_when_error = false; limited = false }

-- The key 4 is filled, found, changed by a refresh, evicted and filled again.
abbrev calls : List (Op ℕ)
calls = gets 4 11 ∷ gets 4 12 ∷ refreshes 4 13 ∷ gets 4 14 ∷ evicts 4 ∷ gets 4 15 ∷ []

calls-AllMeant : AllMeant (pointed one_place tenths plain 9 times_ten 1 held (4 ∷ [])) calls
unfolding ℕ_discrete
calls-AllMeant = (
  (refl, (refl, (refl, refl))),
  (
    (refl, (refl, (refl, refl))),
    (
      (refl, (refl, (refl, refl))),
      ((refl, (refl, (refl, refl))), (tt, ((refl, (refl, (refl, refl))), tt))),
    ),
  ),
)

run_refines_example :
    let w = over_local one_place tenths plain 9 times_ten 1 in
    let here = content one_place tenths plain 9 times_ten 1 held (4 ∷ []) in
    let r = run w config 1 60 none 0 calls in
    (r.0 ≡ (replay (here none) calls).0) × (here r.1.0 ≡ (replay (here none) calls).1)
run_refines_example =
    run_refines (over_local one_place tenths plain 9 times_ten 1) config 1 60
      (pointed one_place tenths plain 9 times_ten 1 held (4 ∷ []))
      (content one_place tenths plain 9 times_ten 1 held (4 ∷ [])) none 0 calls
      (over_local-IsMap one_place tenths plain 9 times_ten 1 held (4 ∷ []) one_place-IsLru
        (omega arith))
      (record { same_kind = λ v good. refl; elem = λ v good. refl; fits = λ v good. refl })
      (λ k a there. ground arith) calls-AllMeant
