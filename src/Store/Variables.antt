-- ===== src/Store/Variables.antt =====
-- onecache/box.go over onecache/store/gcache.go: `get` of the cache with `LocalStore` as its store, where the
-- store is given the pointer `dst` itself. A variable is known by its address, and all variables have one
-- type; `key_not_found` is the error `gcache.KeyNotFoundError`.
pub mod Aliased
mod Tests
use eins.Prelude.{
  ℕ, ◌≡◌, Bool, ◌||◌, Option, none, some, List, [], ◌∷◌, if◌then◌else◌, ◌==◌, ◌⊎◌, inl, inr,
}
use eins.Cache.{
  CacheError, fallback_failed, Verdict, ok, fails, Fetched, fetch_error, nothing, fetched,
  is_missing,
}
use eins.Store.{StoreError, Gcache}
use eins.Store.Redis.Cached.{cache_error}

-- The cache of gcache, which holds addresses, and what the variables hold.
pub record Shared (G V : Type 0) : Type 0 where
  pub cache : G
  pub memory : ℕ → V

abbrev pub assigned : {V : Type 0} → (ℕ → V) → ℕ → V → ℕ → V
assigned memory a v j = if a == j then v else memory j

module _ {G V : Type 0} (b : Gcache G ℕ) (key_not_found : ℕ) where
  open b use {lookup, set_with_expire}

  -- `LocalStore.Get`: the variable `dst` is assigned what the variable that was found holds now.
  abbrev pub on_found : Shared G V → ℕ → StoreError ⊎ ℕ → G → Option CacheError × Shared G V
  on_found s dst (inl e) g = (some (cache_error key_not_found e), record s { cache = g })
  on_found s dst (inr a) g =
      (none, record { cache = g; memory = assigned s.memory dst (s.memory a) })

  unfoldable pub local_get : Shared G V → ℕ → ℕ → Option CacheError × Shared G V
  local_get s key dst = let (answer, g) = lookup s.cache key in on_found s dst answer g

  -- The fallback's value goes into `dst`, and `dst` itself to `LocalStore.Set`.
  unfoldable pub fill_variable : Shared G V → ℕ → ℕ → ℕ → Fetched V → Verdict × Shared G V
  fill_variable s key dst expire (fetch_error e) = (fails (fallback_failed e), s)
  fill_variable s key dst expire nothing = (ok, s)
  fill_variable s key dst expire (fetched v) = (
    ok,
    record { cache = (set_with_expire s.cache key dst expire).1; memory = assigned s.memory dst v },
  )

  -- `get`; `allowed` is what `canFallbackWhenError` returns.
  abbrev pub on_error :
      Bool → Shared G V → ℕ → ℕ → ℕ → Fetched V → Option CacheError → Verdict × Shared G V
  on_error allowed s key dst expire f none = (ok, s)
  on_error allowed s key dst expire f (some e) =
      if is_missing e || allowed then fill_variable s key dst expire f else (fails e, s)

  unfoldable pub get_variable : Bool → Shared G V → ℕ → ℕ → ℕ → Fetched V → Verdict × Shared G V
  unfolding local_get fill_variable
  get_variable allowed s key dst expire f =
      let (err, s') = local_get s key dst in on_error allowed s' key dst expire f err
