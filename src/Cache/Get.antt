-- ===== src/Cache/Get.antt =====
-- onecache/box.go: what `Get` and `Refresh` promise.
use eins.Prelude.{
  ℕ, ◌≡◌, ◌≢◌, refl, true, false, Option, none, some, [], ◌∷◌, arith, ==_iff, if◌then◌else◌, ◌⊎◌,
}
use eins.Cache.{
  CacheError, ok, panics, fails, World, CacheConfig, Fetched, fetch_error, nothing, fetched, Dst,
  is_missing, can_fallback, get, refresh,
}

module _ {S L V T : Type 0} (w : World S L V T) (c : CacheConfig) (s : S) (l : L) (key expire : ℕ)
    (d : Dst V T) where
  open w use {
    store_get, store_set, store_delete, take_available, typ, kind, indirect_kind, elem_kind,
    assignable,
  }

  -- On a pointer, the fallback is called at most once, and exactly when the store answers with an
  -- error that is a missing key or for which a fallback is allowed. If it is not called, the operation
  -- ends with the store's error, and changes nothing more in the store.
  get_calls :
      (f : Fetched V) (e : CacheError) {v : Option V} {s' : S}
      → d.is_ptr ≡ true
      → store_get s key d.target ≡ ((some e, v), s')
      → let r = get w c s l key f d expire in
        (r.calls ≡ (if is_missing e then 1 else if (can_fallback w c l).0 then 1 else 0))
        × ((r.calls ≡ 1) ⊎ ((r.verdict ≡ fails e) × (r.store ≡ s')))
  unfolding get
  get_calls f e ptr answer = ground arith

  -- A hit: the store's value is handed over, and neither the fallback, the limiter nor `Set` is used.
  pub get_hit :
      (f : Fetched V) {v : V} {s' : S}
      → d.is_ptr ≡ true
      → store_get s key d.target ≡ ((none, some v), s')
      → get w c s l key f d expire ≡ record {
        store = s';
        limiter = l;
        dst = record d { content = some v };
        calls = 0;
        verdict = ok;
      }
  unfolding get
  get_hit f ptr answer = ground arith

  -- A missing key for which the fallback returns a value that fits `dst`: the value lies in `dst` and
  -- was given to `Set` under the key and the expiry, whose error is ignored.
  pub get_fills :
      (v : V) (e : CacheError) {old : Option V} {s' : S}
      → d.is_ptr ≡ true
      → is_missing e ≡ true
      → store_get s key d.target ≡ ((some e, old), s')
      → indirect_kind d.target ≡ indirect_kind (typ v)
      → assignable v d.target ≡ true
      → get w c s l key (fetched v) d expire ≡ record {
        store = (store_set s' key v expire).1;
        limiter = l;
        dst = record d { content = some v };
        calls = 1;
        verdict = ok;
      }
  unfolding get
  get_fills v e {old} ptr missing answer kinds fits =
      ground (arith, ==_iff (indirect_kind d.target) (indirect_kind (typ v)))

  -- The check compares kinds below all pointers, and `Set` wants the type itself: a fallback value of
  -- the right kind that is not assignable makes `Get` panic instead of returning an error.
  get_panics :
      (v : V) (e : CacheError) {old : Option V} {s' : S}
      → d.is_ptr ≡ true
      → is_missing e ≡ true
      → store_get s key d.target ≡ ((some e, old), s')
      → indirect_kind d.target ≡ indirect_kind (typ v)
      → assignable v d.target ≡ false
      → (get w c s l key (fetched v) d expire).verdict ≡ panics
  unfolding get
  get_panics v e {old} ptr missing answer kinds misfit =
      ground (arith, ==_iff (indirect_kind d.target) (indirect_kind (typ v)))

module _ {S L V T : Type 0} (w : World S L V T) (s : S) (key expire : ℕ) (t : T) where
  open w use {store_set, store_delete, kind, elem_kind}

  -- `Refresh` asks the fallback only after the key is deleted: if the fallback fails, returns nothing
  -- or a value of another kind, the store is left as the deletion left it.
  refresh_leaves_deleted :
      (f : Fetched V) {s' : S}
      → store_delete s (key ∷ []) ≡ (none, s')
      → ((v : V) → f ≡ fetched v → kind t ≢ elem_kind v)
      → (refresh w s key t expire f).store ≡ s'
  unfolding refresh
  refresh_leaves_deleted (fetch_error e) deleted unfit = ground arith
  refresh_leaves_deleted nothing deleted unfit = ground arith
  refresh_leaves_deleted (fetched v) deleted unfit = ground (arith, unfit v refl)
