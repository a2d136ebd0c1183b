-- ===== src/Cache.antt =====
-- onecache/cache.go, options.go and the single-key operations of box.go. The store, the limiter and
-- what `reflect` and `xreflect` say of a value are parameters; a key is known by a number.
pub mod Get
pub mod Multi
pub mod MultiGet
pub mod Hits
pub mod MultiResult
pub mod Writes
pub mod ReadThrough
mod Tests
use eins.Prelude.{
  ℕ, ◌≡◌, Bool, true, false, ◌||◌, not, Option, none, some, List, [], ◌∷◌, map, if◌then◌else◌, ◌==◌,
}

-- The errors of cache.go and of the store, with the two that mean a missing key as `not_found`.
pub data CacheError : Type 0 where
  bad_ids_type bad_src_type bad_dst_type bad_dst_map_type bad_dst_map_value : CacheError
  src_dst_type_mismatch bad_fallback_result_type dst_fallback_type_mismatch : CacheError
  not_found : CacheError
  store_failed fallback_failed : ℕ → CacheError

-- How an operation ends; `panics` is also what the `Must` operations make of an error.
pub data Verdict : Type 0 where
  ok panics : Verdict
  fails : CacheError → Verdict

-- The store behind the cache, the limiter, and the values. `indirect_kind` is the kind of a type
-- below all its pointers, `elem_kind` that of a value below one pointer, `assignable v t` says that
-- `reflect.Value.Set` accepts `v` at a place of the type `t`.
pub record World (S L V T : Type 0) : Type 0 where
  pub store_get : S → ℕ → T → (Option CacheError × Option V) × S
  pub store_set : S → ℕ → V → ℕ → Option CacheError × S
  pub store_delete : S → List ℕ → Option CacheError × S
  pub store_get_multi : S → List ℕ → (Option CacheError × (ℕ → Option V)) × S
  pub store_set_multi : S → List ℕ → List V → ℕ → Option CacheError × S
  pub take_available : L → ℕ → ℕ × L
  pub typ : V → T
  pub kind : T → ℕ
  pub indirect_kind : T → ℕ
  pub elem_kind : V → ℕ
  pub assignable : V → T → Bool

-- `Cache` without its store. `limited` says that a limiter is set.
pub record CacheConfig : Type 0 where
  pub expire : ℕ
  pub fallback_when_error : Bool
  pub limited : Bool

-- `Option`, as the two constructors of options.go make it.
pub data CacheOption : Type 0 where
  with_fallback with_limiter : CacheOption

unfoldable pub apply_option : CacheConfig → CacheOption → CacheConfig
apply_option c with_fallback = record c { fallback_when_error = true }
apply_option c with_limiter = record c { limited = true }

unfoldable pub apply_all : CacheConfig → List CacheOption → CacheConfig
unfolding apply_option
apply_all c [] = c
apply_all c (o ∷ os) = apply_all (apply_option c o) os

-- `NewCache`.
unfoldable pub new_cache : ℕ → List CacheOption → CacheConfig
unfolding apply_all
new_cache expire os =
    apply_all (record { expire = expire; fallback_when_error = false; limited = false }) os

-- What a fallback function returns: an error, nothing (an invalid value or a nil pointer), a value.
pub data Fetched (V : Type 0) : Type 0 where
  fetch_error : ℕ → Fetched V
  nothing : Fetched V
  fetched : V → Fetched V

-- `dst`: whether it is a pointer, the type that it points to, and what lies there.
pub record Dst (V T : Type 0) : Type 0 where
  pub is_ptr : Bool
  pub target : T
  pub content : Option V

-- The state that an operation changes, and how it ended. `calls` counts the calls of the fallback.
pub record Run (S L V T : Type 0) : Type 0 where
  pub store : S
  pub limiter : L
  pub dst : Dst V T
  pub calls : ℕ
  pub verdict : Verdict

-- The same of `refresh`, which hands no value to its caller and asks no limiter.
pub record Refreshed (S : Type 0) : Type 0 where
  pub store : S
  pub calls : ℕ
  pub verdict : Verdict

-- The expiry that an operation uses: `ttl` if it is given.
unfoldable pub effective_expire : CacheConfig → Option ℕ → ℕ
effective_expire c none = c.expire
effective_expire c (some ttl) = ttl

abbrev pub verdict_of : Option CacheError → Verdict
verdict_of none = ok
verdict_of (some e) = fails e

-- `PanicIf` of eins.go on the error of an operation.
unfoldable pub panic_if : Verdict → Verdict
panic_if (fails e) = panics
panic_if v = v

abbrev pub is_missing : CacheError → Bool
is_missing not_found = true
is_missing _ = false

module _ {S L V T : Type 0} (w : World S L V T) where
  open w use {
    store_get, store_set, store_delete, take_available, typ, kind, indirect_kind, elem_kind,
    assignable,
  }

  -- `canFallbackWhenError`: it takes a token only if a limiter is asked.
  unfoldable pub can_fallback : CacheConfig → L → Bool × L
  can_fallback c l =
      if not c.fallback_when_error
      then (false, l)
      else if not c.limited
      then (true, l)
      else (not ((take_available l 1).0 == 0), (take_available l 1).1)

  -- The part of `get` behind the call of the fallback.
  unfoldable pub fill : S → L → ℕ → Dst V T → ℕ → Fetched V → Run S L V T
  fill s l key d expire (fetch_error e) = record {
    store = s;
    limiter = l;
    dst = d;
    calls = 1;
    verdict = fails (fallback_failed e);
  }
  fill s l key d expire nothing = record {
    store = s;
    limiter = l;
    dst = d;
    calls = 1;
    verdict = ok;
  }
  fill s l key d expire (fetched v) =
      if not (indirect_kind d.target == indirect_kind (typ v))
      then record {
        store = s;
        limiter = l;
        dst = d;
        calls = 1;
        verdict = fails dst_fallback_type_mismatch;
      }
      else if assignable v d.target
      then record {
        store = (store_set s key v expire).1;
        limiter = l;
        dst = record d { content = some v };
        calls = 1;
        verdict = ok;
      }
      else record { store = s; limiter = l; dst = d; calls = 1; verdict = panics }

  -- `get` after the store has answered with an error.
  unfoldable pub on_store_error :
      CacheConfig → S → L → ℕ → Dst V T → ℕ → Fetched V → CacheError → Run S L V T
  unfolding can_fallback fill
  on_store_error c s l key d expire f e =
      if is_missing e
      then fill s l key d expire f
      else let (allowed, l') = can_fallback c l in
        if allowed
        then fill s l' key d expire f
        else record { store = s; limiter = l'; dst = d; calls = 0; verdict = fails e }

  -- The content of `dst` after the store's `Get`.
  abbrev pub stored : Dst V T → Option V → Dst V T
  stored d none = d
  stored d (some v) = record d { content = some v }

  -- `get`.
  unfoldable pub get : CacheConfig → S → L → ℕ → Fetched V → Dst V T → ℕ → Run S L V T
  unfolding on_store_error
  get c s l key f d expire =
      let ((err, v), s') = store_get s key d.target in
      let answered : Run S L V T = elim err [
        | none ↦ record { store = s'; limiter = l; dst = stored d v; calls = 0; verdict = ok }
        | some e ↦ on_store_error c s' l key (stored d v) expire f e
      ] in
      if d.is_ptr
      then answered
      else record { store = s; limiter = l; dst = d; calls = 0; verdict = fails bad_dst_type }

  -- `Get`.
  unfoldable pub get_ttl : CacheConfig → S → L → ℕ → Fetched V → Dst V T → Option ℕ → Run S L V T
  unfolding get effective_expire
  get_ttl c s l key f d ttl = get c s l key f d (effective_expire c ttl)

  -- `MustGet`.
  unfoldable pub must_get : CacheConfig → S → L → ℕ → Fetched V → Dst V T → Option ℕ → Run S L V T
  unfolding get_ttl panic_if
  must_get c s l key f d ttl =
      let r = get_ttl c s l key f d ttl in record r { verdict = panic_if r.verdict }

  -- `Evict` and `MustEvict`.
  unfoldable pub evict : S → ℕ → Verdict × S
  evict s key = let (err, s') = store_delete s (key ∷ []) in (verdict_of err, s')

  unfoldable pub must_evict : S → ℕ → Verdict × S
  unfolding evict panic_if
  must_evict s key = let (v, s') = evict s key in (panic_if v, s')

  -- The part of `refresh` behind the call of the fallback.
  unfoldable pub renew : S → ℕ → T → ℕ → Fetched V → Refreshed S
  renew s key t expire (fetch_error e) = record {
    store = s;
    calls = 1;
    verdict = fails (fallback_failed e);
  }
  renew s key t expire nothing = record { store = s; calls = 1; verdict = ok }
  renew s key t expire (fetched v) =
      let (err, s') = store_set s key v expire in
      if kind t == elem_kind v
      then record { store = s'; calls = 1; verdict = verdict_of err }
      else record { store = s; calls = 1; verdict = fails dst_fallback_type_mismatch }

  -- `refresh`.
  unfoldable pub refresh : S → ℕ → T → ℕ → Fetched V → Refreshed S
  unfolding renew
  refresh s key t expire f =
      let (err, s') = store_delete s (key ∷ []) in
      elim err [
        | none ↦ renew s' key t expire f
        | some e ↦ record { store = s'; calls = 0; verdict = fails e }
      ]

  -- `Refresh` and `MustRefresh`.
  unfoldable pub refresh_ttl : CacheConfig → S → ℕ → T → Option ℕ → Fetched V → Refreshed S
  unfolding refresh effective_expire
  refresh_ttl c s key t ttl f = refresh s key t (effective_expire c ttl) f

  unfoldable pub must_refresh : CacheConfig → S → ℕ → T → Option ℕ → Fetched V → Refreshed S
  unfolding refresh_ttl panic_if
  must_refresh c s key t ttl f =
      let r = refresh_ttl c s key t ttl f in record r { verdict = panic_if r.verdict }
