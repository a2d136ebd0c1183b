-- ===== src/Cache/Tests.antt =====
-- onecache/box.go: runs of the cache over a small store, which maps keys to numbers. A value below 100
-- has the type 1, any other one the type 2; both have the kind 7, and the type 9 has the kind 9.
use eins.Prelude.{
  ℕ, ◌≡◌, refl, Bool, true, false, Option, none, some, List, [], ◌∷◌, arith, if◌then◌else◌, ltb,
  ◌==◌,
}
use eins.Cache.{CacheError, not_found, ok, World, CacheConfig, Dst}
use eins.Cache.Multi.{
  some_map, Shapes, FetchedMulti, no_map_value, get_multi, get_checked, on_answer, after_get, id_of,
  part, hit, miss, ask_misses, fill_multi, Found, write_all,
}
use eins.Cache.Hits.{uncached, has_id, or_else}
use eins.Cache.MultiResult.{answered, store_after, asked_of, get_multi_result}

abbrev Store : Type 0
Store = ℕ → Option ℕ

abbrev answer : Option ℕ → Option CacheError × Option ℕ
answer none = (some not_found, none)
answer (some v) = (none, some v)

abbrev without : List ℕ → Store → Store
without [] s = s
without (k ∷ ks) s = without ks (λ j. if k == j then none else s j)

abbrev small : World Store ℕ ℕ ℕ
small = record {
  store_get = λ s k t. (answer (s k), s);
  store_set = λ s k v e. (none, λ j. if k == j then some v else s j);
  store_delete = λ s ks. (none, without ks s);
  store_get_multi = λ s ks. ((none, s), s);
  store_set_multi = λ s ks vs e. (none, s);
  take_available = λ l n. (l, l);
  typ = λ v. if ltb v 100 then 1 else 2;
  kind = λ t. if t == 9 then 9 else 7;
  indirect_kind = λ t. if t == 9 then 9 else 7;
  elem_kind = λ v. 7;
  assignable = λ v t. (if ltb v 100 then 1 else 2) == t;
}

abbrev plain : CacheConfig
plain = record { expire = 60; fallback_when_error = false; limited = false }

-- The store has the value 11 under the key 1, and nothing else.
abbrev one_key : Store
one_key k = if k == 1 then some 11 else none

abbrev int_dst : Dst ℕ ℕ
int_dst = record { is_ptr = true; target = 1; content = none }

-- A map of ids to values, and ids that are their own keys.
abbrev shapes : Shapes
shapes = record {
  target = some_map;
  ids_slice = true;
  id_kind = 1;
  key_kind = 1;
  value_kind = 7;
  ids_fit = true;
}

abbrev asks_nothing_found : List ℕ → FetchedMulti ℕ
asks_nothing_found ids = no_map_value

abbrev two_only : List ℕ
two_only = 2 ∷ []

two_asked :
    (get_multi small
      (λ id. id)
      (λ v. false)
      plain
      shapes
      one_key
      0
      (1 ∷ 2 ∷ [])
      (λ k. none)
      60
      asks_nothing_found).asked
    ≡ some (2 ∷ [])
unfolding get_multi get_checked on_answer after_get id_of part hit miss ask_misses fill_multi
two_asked = refl

-- The fallback answers for 2 and, without being asked, for 3; its value for 5 is nil.
abbrev answer_two : List ℕ → Found ℕ
answer_two ids = record {
  key_kind = 1;
  value_kind = 7;
  fits = true;
  entries = (2, 22) ∷ (5, 0) ∷ (3, 33) ∷ [];
}

abbrev is_zero : ℕ → Bool
is_zero v = v == 0

get_multi_result_example :
    let missing = uncached (λ id. id) one_key (1 ∷ 2 ∷ 5 ∷ []) in
    let es = answered small (λ id. id) is_zero answer_two missing in
    get_multi small
      (λ id. id)
      is_zero
      plain
      shapes
      one_key
      0
      (1 ∷ 2 ∷ 5 ∷ [])
      (λ k. none)
      60
      (λ ms. FetchedMulti.found (answer_two ms))
    ≡ record {
      store = store_after small (λ id. id) is_zero answer_two one_key 60 es;
      limiter = 0;
      dst =
          write_all es (λ j. if has_id j (1 ∷ 2 ∷ 5 ∷ []) then or_else (one_key j) none else none);
      asked = asked_of missing;
      verdict = ok;
    }
get_multi_result_example =
    get_multi_result small (λ id. id) is_zero answer_two plain shapes one_key one_key 0
      (1 ∷ 2 ∷ 5 ∷ []) (λ k. none) one_key 60 (λ i j e. e) refl refl refl refl (λ e. ground arith)
      refl (λ ms. (refl, refl, refl))
