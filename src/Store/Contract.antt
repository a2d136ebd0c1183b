-- ===== src/Store/Contract.antt =====
-- onecache/store/gcache.go: `LocalStore` behind the cache, and the contract that the cache wants of a store.
-- `point` makes a pointer to a value: the cache hands a pointer to `LocalStore`, here to a variable that
-- nothing else changes.
mod Tests
use eins.Prelude.{
  ℕ, ◌≡◌, refl, sym, ap, ◌∙◌, Bool, true, false, Option, none, some, List, [], ◌∷◌, arith, ==_iff,
  Option-cases, Bool-cases, length, ◌≤◌, inl, inr, ◌⊎◌, if◌then◌else◌, ◌==◌,
}
use eins.Cache.{CacheError, not_found, World}
use eins.Cache.Multi.{some_map_ptr, put_at}
use eins.Cache.ReadThrough.{Terms, IsMap, removed}
use eins.Store.{
  StoreError, backend, Outcome, Gcache, Values, get, on_lookup, assign, set, delete, get_multi,
  set_multi,
}
use eins.Store.Redis.Spec.{has_key}
use eins.Store.Redis.Cached.{error_of, cache_error, place_for}

abbrev pub answer_of : {V : Type 0} → ℕ → Option V → StoreError ⊎ V
answer_of key_not_found none = inl (backend key_not_found)
answer_of key_not_found (some v) = inr v

-- What gcache documents of a cache of the kind LRU with places for `size` keys, with `holds` for its content,
-- while nothing expires: a key is written without another one being dropped, if the keys that are held
-- are among some `keys` that have places, and the new one too.
pub record IsLru {G V : Type 0} (b : Gcache G V) (holds : G → ℕ → Option V) (key_not_found size : ℕ)
    : Type 0 where
  pub lookup_reads : (g : G) (k : ℕ) → (b.lookup g k).0 ≡ answer_of key_not_found (holds g k)
  pub lookup_keeps : (g : G) (k j : ℕ) → holds (b.lookup g k).1 j ≡ holds g j
  pub set_writes :
      (g : G) (keys : List ℕ) (k : ℕ) (v : V) (ttl : ℕ)
      → length keys ≤ size
      → ((j : ℕ) (u : V) → holds g j ≡ some u → has_key j keys ≡ true)
      → has_key k keys ≡ true
      → ((b.set_with_expire g k v ttl).0 ≡ none)
        × ((j : ℕ) → holds (b.set_with_expire g k v ttl).1 j ≡ put_at (holds g) k v j)
  pub remove_removes : (g : G) (k j : ℕ) → holds (b.remove g k) j ≡ removed (holds g) k j

-- A value of the type `t`, which can be assigned to a variable of it.
abbrev pub IsOf : {V T : Type 0} → Values V T → T → V → Type 0
IsOf r t v = (r.indirect_kind t ≡ r.indirect_kind (r.typ v)) × (r.assignable v t ≡ true)

module _ {G L V T : Type 0} (b : Gcache G V) (r : Values V T) (base : World G L V T)
    (key_not_found : ℕ) (point : V → V) (t : T) where
  -- `LocalStore` as the cache calls it.
  abbrev pub over_local : World G L V T
  over_local = record base {
    store_get = λ g key target. (
      (
        error_of key_not_found (get b r g key (place_for target)).0,
        (get b r g key (place_for target)).1.content,
      ),
      (get b r g key (place_for target)).2,
    );
    store_set = λ g key v ttl.
        (error_of key_not_found (set b r g key (point v) ttl).0, (set b r g key (point v) ttl).1);
    store_delete = λ g keys. (none, delete b r g keys);
    store_get_multi = λ g keys. (
      (
        error_of key_not_found
            (get_multi b r some_map_ptr (λ v. r.assignable v t) keys g (λ _. none)).0,
        (get_multi b r some_map_ptr (λ v. r.assignable v t) keys g (λ _. none)).1,
      ),
      (get_multi b r some_map_ptr (λ v. r.assignable v t) keys g (λ _. none)).2,
    );
    store_set_multi = λ g keys vs ttl. (
      error_of key_not_found (set_multi b r g keys true vs ttl).0,
      (set_multi b r g keys true vs ttl).1,
    );
  }

  -- A `Get` into a pointer leaves gcache as its lookup does.
  get-lookup : (g : G) (k : ℕ) → (get b r g k (place_for t)).2 ≡ (b.lookup g k).1
  unfolding get on_lookup assign
  get-lookup g k = ground arith

  abbrev behind : Option V → Option V
  behind none = none
  behind (some v) = r.indirect v

  module _ (holds : G → ℕ → Option V) (keys : List ℕ) where
    -- The values that the store has, behind their pointers.
    abbrev pub content : G → ℕ → Option V
    content g k = behind (holds g k)

    -- The terms: some keys, values of the type `t` that a pointer is made to, and a cache that holds such
    -- keys and pointers to values of the type.
    abbrev pub pointed : Terms G V
    pointed = record {
      known = λ k. has_key k keys ≡ true;
      good = λ v. (r.indirect (point v) ≡ some v) × IsOf r t v;
      valid = λ g.
          (k : ℕ) (a : V)
          → holds g k ≡ some a
          → (has_key k keys ≡ true) × (v : V) × (r.indirect a ≡ some v) × IsOf r t v;
    }

    module _ {size : ℕ} (h : IsLru b holds key_not_found size) (room : length keys ≤ size) where
      store_get-there :
          (g : G) (k : ℕ) (v : V)
          → pointed.valid g
          → content g k ≡ some v
          → (over_local.store_get g k t).0 ≡ (none, some v)
      unfolding get on_lookup assign
      store_get-there g k v valid there = elim (Option-cases (holds g k)) [
        | inl absent ↦ ground (arith, absent, there)
        | inr (a, found) ↦
            let (known, u, behind_a, (kinds, fits)) = valid k a found in
            ground (
              arith,
              h.lookup_reads g k,
              found,
              behind_a,
              there,
              kinds,
              fits,
              ==_iff (r.indirect_kind t) (r.indirect_kind (r.typ u)),
            )
      ]

      store_get-missing :
          (g : G) (k : ℕ)
          → pointed.valid g
          → content g k ≡ none
          → (over_local.store_get g k t).0 ≡ (some not_found, none)
      unfolding get on_lookup assign
      store_get-missing g k valid gone = elim (Option-cases (holds g k)) [
        | inl absent ↦
            ground (arith, h.lookup_reads g k, absent, ==_iff key_not_found key_not_found)
        | inr (a, found) ↦
            let (known, u, behind_a, fits) = valid k a found in
            ground (arith, found, behind_a, gone)
      ]

      store_get-keeps :
          (g : G) (k : ℕ)
          → pointed.valid g
          → pointed.valid (over_local.store_get g k t).1
            × ((j : ℕ) → content (over_local.store_get g k t).1 j ≡ content g j)
      store_get-keeps g k valid =
          let same : (j : ℕ) → holds (over_local.store_get g k t).1 j ≡ holds g j =
            λ j. ap (λ (g' : G). holds g' j) (get-lookup g k) ∙ h.lookup_keeps g k j in
          (λ j a there. valid j a (sym (same j) ∙ there), λ j. ap behind (same j))

      store_set-writes :
          (g : G) (k : ℕ) (v : V) (ttl : ℕ)
          → pointed.valid g
          → pointed.known k
          → pointed.good v
          → ((over_local.store_set g k v ttl).0 ≡ none)
            × pointed.valid (over_local.store_set g k v ttl).1
            × ((j : ℕ) → content (over_local.store_set g k v ttl).1 j ≡ put_at (content g) k v j)
      unfolding set
      store_set-writes g k v ttl valid known (points, (kinds, fits)) =
          let (stored, written) =
            h.set_writes g keys k (point v) ttl room (λ j u there. (valid j u there).0) known in
          (
            rw stored refl,
            λ j a there. still_valid j a (sym (written j) ∙ there),
            λ j. ap behind (written j) ∙ ground (arith, points),
          )
        where
          still_valid :
              (j : ℕ) (a : V)
              → put_at (holds g) k (point v) j ≡ some a
              → (has_key j keys ≡ true) × (u : V) × (r.indirect a ≡ some u) × IsOf r t u
          still_valid j a there = elim (Bool-cases (k == j)) [
            | inl here ↦
                let same : k ≡ j = ground (arith, here, ==_iff k j) in
                let its : point v ≡ a = ground (arith, here, there) in
                (
                  sym (ap (λ (i : ℕ). has_key i keys) same) ∙ known,
                  v,
                  sym (ap r.indirect its) ∙ points,
                  (kinds, fits),
                )
            | inr other ↦ valid j a (ground (arith, other, there))
          ]

      store_delete-removes :
          (g : G) (k : ℕ)
          → pointed.valid g
          → pointed.valid (delete b r g (k ∷ []))
            × ((j : ℕ) → content (delete b r g (k ∷ [])) j ≡ removed (content g) k j)
      unfolding delete
      store_delete-removes g k valid = (
        λ j a there. valid j a (left j a (sym (h.remove_removes g k j) ∙ there)),
        λ j. ap behind (h.remove_removes g k j) ∙ ground arith,
      )
        where
          left : (j : ℕ) (a : V) → removed (holds g) k j ≡ some a → holds g j ≡ some a
          left j a there = ground (arith, there)

    -- `LocalStore` keeps the contract of a map for keys that are no more than the places of its gcache, and for
    -- values of one type, while nothing expires.
    pub over_local-IsMap :
        {size : ℕ}
        → IsLru b holds key_not_found size
        → length keys ≤ size
        → IsMap over_local t pointed content
    over_local-IsMap h room = record {
      get_there = store_get-there h room;
      get_missing = store_get-missing h room;
      get_keeps = store_get-keeps h room;
      set_writes = store_set-writes h room;
      delete_removes = λ g k valid.
          let (valid', gone) = store_delete-removes h room g k valid in (refl, valid', gone);
    }
