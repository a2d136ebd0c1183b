-- ===== src/Store/Laws.antt =====
-- onecache/store/gcache.go: what the operations of `LocalStore` do to each other.
use eins.Prelude.{ℕ, ◌≡◌, refl, Bool, true, false, none, some, List, [], ◌∷◌, arith, ==_iff, inr}
use eins.Cache.{Dst}
use eins.Store.{done, Gcache, Values, get, set, on_lookup, assign, exists_multi, exists, delete}

abbrev pub all_false : List ℕ → List Bool
all_false [] = []
all_false (key ∷ keys) = false ∷ all_false keys

module _ {G V T : Type 0} (b : Gcache G V) (r : Values V T) where
  open b use {lookup, has, set_with_expire, remove}
  open r use {indirect, typ, indirect_kind, assignable}

  -- A value that was stored without an error is what a `Get` of its key puts into `dst`, one pointer
  -- followed, if gcache returns under a key what was stored there last, and the value fits.
  get-set :
      ((g h : G) (k ttl : ℕ) (v : V)
        → set_with_expire g k v ttl ≡ (none, h)
        → (lookup h k).0 ≡ inr v)
      → (g h : G) (key ttl : ℕ) (v w : V) (d : Dst V T) → set b r g key v ttl ≡ (done, h)
      → d.is_ptr ≡ true
      → indirect v ≡ some w
      → indirect_kind d.target ≡ indirect_kind (typ w)
      → assignable w d.target ≡ true
      → let (o, d', g') = get b r h key d in (o ≡ done) × (d'.content ≡ some w)
  unfolding get set on_lookup assign
  get-set kept g h key ttl v w d stored ptr behind kinds fits =
      ground (arith, kept g h key ttl v, ==_iff (indirect_kind d.target) (indirect_kind (typ w)))

  module _ (gone : (g : G) (k : ℕ) → has (remove g k) k ≡ false)
      (stays : (g : G) (j k : ℕ) → has g k ≡ false → has (remove g j) k ≡ false) where
    delete-missing :
        (keys : List ℕ) (g : G) (k : ℕ) → has g k ≡ false → has (delete b r g keys) k ≡ false
    unfolding delete
    delete-missing [] g k h = h
    delete-missing (key ∷ keys) g k h = delete-missing keys (remove g key) k (stays g key k h)

    -- After `Delete` no deleted key exists, if gcache has no key that was just removed and gets none by
    -- removing another.
    exists_multi-delete :
        (keys : List ℕ) (g : G) → exists_multi b r (delete b r g keys) keys ≡ all_false keys
    unfolding delete exists_multi exists
    exists_multi-delete [] g = refl
    exists_multi-delete (key ∷ keys) g =
        rw
          (
            delete-missing keys (remove g key) key (gone g key),
            exists_multi-delete keys (remove g key),
          )
          refl
