-- ===== src/Cache/MultiGet.antt =====
-- onecache/box.go: the operations on many keys as a caller sees them, with the expiry and the `Must`
-- variants, and what they promise.
use eins.Prelude.{
  ℕ, ◌≡◌, ◌≢◌, refl, Bool, true, false, Option, none, some, List, [], ◌∷◌, ◌++◌, map, arith, ==_iff,
  ◌⊎◌, if_cases,
}
use eins.Cache.{CacheError, Verdict, World, CacheConfig, can_fallback, panic_if, effective_expire}
use eins.Cache.Multi.{
  Target, Shapes, Found, FetchedMulti, fetch_error, no_value, no_map_value, found, id_of, hit, miss,
  part, MultiRun, save, fill_multi, ask_misses, after_get, on_answer, get_checked, get_multi,
  without_nil,
}
use eins.Cache.Multi.Refresh.{
  evict_multi, renew_multi, after_delete, refresh_checked, refresh_multi,
}

module _ {S L V T : Type 0} (w : World S L V T) (key_of : ℕ → ℕ) (is_nil : V → Bool) where
  -- `GetMulti` and `MustGetMulti`.
  unfoldable pub get_multi_ttl :
      CacheConfig
      → Shapes
      → S
      → L
      → List ℕ
      → (ℕ → Option V)
      → Option ℕ
      → (List ℕ → FetchedMulti V)
      → MultiRun S L V
  unfolding get_multi effective_expire
  get_multi_ttl c sh s l ids dst ttl f =
      get_multi w key_of is_nil c sh s l ids dst (effective_expire c ttl) f

  unfoldable pub must_get_multi :
      CacheConfig
      → Shapes
      → S
      → L
      → List ℕ
      → (ℕ → Option V)
      → Option ℕ
      → (List ℕ → FetchedMulti V)
      → MultiRun S L V
  unfolding get_multi_ttl panic_if
  must_get_multi c sh s l ids dst ttl f =
      let r = get_multi_ttl c sh s l ids dst ttl f in record r { verdict = panic_if r.verdict }

  -- `MustEvictMulti`.
  unfoldable pub must_evict_multi : S → Bool → List ℕ → Verdict × S
  unfolding evict_multi panic_if
  must_evict_multi s ids_slice ids =
      let (v, s') = evict_multi w key_of is_nil s ids_slice ids in (panic_if v, s')

  -- `RefreshMulti` and `MustRefreshMulti`.
  unfoldable pub refresh_multi_ttl :
      CacheConfig → Shapes → S → List ℕ → Option ℕ → (List ℕ → FetchedMulti V) → Verdict × S
  unfolding refresh_multi effective_expire
  refresh_multi_ttl c sh s ids ttl f =
      refresh_multi w key_of is_nil sh s ids (effective_expire c ttl) f

  unfoldable pub must_refresh_multi :
      CacheConfig → Shapes → S → List ℕ → Option ℕ → (List ℕ → FetchedMulti V) → Verdict × S
  unfolding refresh_multi_ttl panic_if
  must_refresh_multi c sh s ids ttl f =
      let (v, s') = refresh_multi_ttl c sh s ids ttl f in (panic_if v, s')

-- Ids whose keys the store did not answer for.
abbrev pub AllUncached : {V : Type 0} → (ℕ → ℕ) → (ℕ → Option V) → List ℕ → Type 0
AllUncached key_of cached [] = Unit
AllUncached key_of cached (id ∷ ids) = (cached (key_of id) ≡ none) × AllUncached key_of cached ids

AllUncached-append :
    {V : Type 0} (key_of : ℕ → ℕ) (cached : ℕ → Option V) (ids : List ℕ) (id : ℕ)
    → AllUncached key_of cached ids
    → cached (key_of id) ≡ none
    → AllUncached key_of cached (ids ++ id ∷ [])
AllUncached-append key_of cached [] id h e = (e, tt)
AllUncached-append key_of cached (j ∷ ids) id (h, hs) e =
    (h, AllUncached-append key_of cached ids id hs e)

-- The id that is found for a key has that key.
pub id_of-key :
    (key_of : ℕ → ℕ) (ids : List ℕ) (key id : ℕ) → id_of key_of ids key ≡ some id → key_of id ≡ key
unfolding id_of
id_of-key key_of [] key id e = ground arith
id_of-key key_of (j ∷ ids) key id e =
    ground (arith, id_of-key key_of ids key id, ==_iff (key_of j) key)

module _ {V : Type 0} (key_of : ℕ → ℕ) (cached : ℕ → Option V) (id_at : ℕ → Option ℕ) where
  miss-AllUncached :
      (key : ℕ) (o : Option ℕ) (v : Option V) (misses : List ℕ)
      → ((id : ℕ) → o ≡ some id → key_of id ≡ key)
      → cached key ≡ v
      → AllUncached key_of cached misses
      → AllUncached key_of cached (miss o v misses)
  unfolding miss
  miss-AllUncached key none v misses back e h = h
  miss-AllUncached key (some id) none misses back e h =
      AllUncached-append key_of cached misses id h (rw (back id refl) e)
  miss-AllUncached key (some id) (some v) misses back e h = h

  part-AllUncached :
      (keys : List ℕ) (dst : ℕ → Option V) (misses : List ℕ)
      → ((key id : ℕ) → id_at key ≡ some id → key_of id ≡ key)
      → AllUncached key_of cached misses
      → AllUncached key_of cached (part id_at cached keys dst misses).1
  unfolding part
  part-AllUncached [] dst misses back h = h
  part-AllUncached (key ∷ keys) dst misses back h =
      part-AllUncached keys (hit (id_at key) (cached key) dst)
        (miss (id_at key) (cached key) misses) back
        (miss-AllUncached key (id_at key) (cached key) misses (back key) refl h)

module _ {S L V T : Type 0} (w : World S L V T) (key_of : ℕ → ℕ) (is_nil : V → Bool) where
  open w use {store_get_multi, store_delete}

  save-asked :
      (s : S) (l : L) (dst : ℕ → Option V) (asked : List ℕ) (expire : ℕ) (fits : Bool)
      (es : List (ℕ × V))
      → (save w key_of is_nil s l dst asked expire fits es).asked ≡ some asked
  unfolding save
  save-asked s l dst asked expire fits [] = refl
  save-asked s l dst asked expire fits (e ∷ es) = ground arith

  fill_multi-asked :
      (sh : Shapes) (s : S) (l : L) (dst : ℕ → Option V) (asked : List ℕ) (expire : ℕ)
      (r : FetchedMulti V)
      → (fill_multi w key_of is_nil sh s l dst asked expire r).asked ≡ some asked
  unfolding fill_multi
  fill_multi-asked sh s l dst asked expire (fetch_error e) = refl
  fill_multi-asked sh s l dst asked expire no_value = refl
  fill_multi-asked sh s l dst asked expire no_map_value = refl
  fill_multi-asked sh s l dst asked expire (found r) =
      ground (arith, save-asked s l dst asked expire r.fits (without_nil is_nil r.entries))

  -- Nothing was asked, or ids that are missing.
  abbrev AsksMisses : (ℕ → Option V) → Option (List ℕ) → Type 0
  AsksMisses cached none = Unit
  AsksMisses cached (some asked) = (asked ≢ []) × AllUncached key_of cached asked

  ask_misses-AsksMisses :
      (sh : Shapes) (s : S) (l : L) (dst : ℕ → Option V) (misses : List ℕ) (expire : ℕ)
      (f : List ℕ → FetchedMulti V) (cached : ℕ → Option V)
      → AllUncached key_of cached misses
      → AsksMisses cached (ask_misses w key_of is_nil sh s l dst misses expire f).asked
  unfolding ask_misses
  ask_misses-AsksMisses sh s l dst [] expire f cached h = tt
  ask_misses-AsksMisses sh s l dst (m ∷ ms) expire f cached h =
      rw (fill_multi-asked sh s l dst (m ∷ ms) expire (f (m ∷ ms))) ((λ e. ground arith), h)

  after_get-AsksMisses :
      (sh : Shapes) (s : S) (l : L) (ids : List ℕ) (cached dst : ℕ → Option V) (expire : ℕ)
      (f : List ℕ → FetchedMulti V)
      → AsksMisses cached (after_get w key_of is_nil sh s l ids cached dst expire f).asked
  unfolding after_get
  after_get-AsksMisses sh s l ids cached dst expire f =
      let r = part (id_of key_of ids) cached (map key_of ids) dst [] in
      if_cases (λ (t : MultiRun S L V). AsksMisses cached t.asked) sh.ids_fit _ _
        (ask_misses-AsksMisses sh s l r.0 r.1 expire f cached (
          part-AllUncached key_of cached (id_of key_of ids) (map key_of ids) dst []
            (id_of-key key_of ids) tt))
        tt

  on_answer-AsksMisses :
      (c : CacheConfig) (sh : Shapes) (s : S) (l : L) (ids : List ℕ) (err : Option CacheError)
      (cached dst : ℕ → Option V) (expire : ℕ) (f : List ℕ → FetchedMulti V)
      → AsksMisses cached (on_answer w key_of is_nil c sh s l ids err cached dst expire f).asked
  unfolding on_answer
  on_answer-AsksMisses c sh s l ids none cached dst expire f =
      after_get-AsksMisses sh s l ids cached dst expire f
  on_answer-AsksMisses c sh s l ids (some e) cached dst expire f =
      if_cases (λ (t : MultiRun S L V). AsksMisses cached t.asked) (can_fallback w c l).0 _ _
        (after_get-AsksMisses sh s (can_fallback w c l).1 ids cached dst expire f) tt

  get_checked-AsksMisses :
      (c : CacheConfig) (sh : Shapes) (s : S) (l : L) (ids : List ℕ) (dst : ℕ → Option V)
      (expire : ℕ) (f : List ℕ → FetchedMulti V)
      → AsksMisses
          (store_get_multi s (map key_of ids)).0.1
          (get_checked w key_of is_nil c sh s l ids dst expire f).asked
  unfolding get_checked
  get_checked-AsksMisses c sh s l ids dst expire f =
      let r = store_get_multi s (map key_of ids) in
      ground (arith, on_answer-AsksMisses c sh r.1 l ids r.0.0 r.0.1 dst expire f)

  get_multi-AsksMisses :
      (c : CacheConfig) (sh : Shapes) (s : S) (l : L) (ids : List ℕ) (dst : ℕ → Option V)
      (expire : ℕ) (f : List ℕ → FetchedMulti V)
      → AsksMisses
          (store_get_multi s (map key_of ids)).0.1
          (get_multi w key_of is_nil c sh s l ids dst expire f).asked
  unfolding get_multi
  get_multi-AsksMisses c sh s l ids dst expire f = ground (
    arith,
    get_checked-AsksMisses c sh s l ids dst expire f,
    get_checked-AsksMisses c sh s l ids (λ _. none) expire f,
  )

  -- If `GetMulti` calls the fallback at all, it is with at least one id, and only with ids for whose
  -- keys the store has returned nothing, also when the store answered with an error.
  get_multi_asks_misses :
      (c : CacheConfig) (sh : Shapes) (s : S) (l : L) (ids asked : List ℕ) (dst : ℕ → Option V)
      (expire : ℕ) (f : List ℕ → FetchedMulti V)
      → (get_multi w key_of is_nil c sh s l ids dst expire f).asked ≡ some asked
      → (asked ≢ []) × AllUncached key_of (store_get_multi s (map key_of ids)).0.1 asked
  get_multi_asks_misses c sh s l ids asked dst expire f e =
      rw e at (get_multi-AsksMisses c sh s l ids dst expire f)

  renew_multi-unfit :
      (s : S) (expire : ℕ) (r : FetchedMulti V)
      → ((q : Found V) → r ≡ found q → (q.fits ≡ false) ⊎ (q.entries ≡ []))
      → (renew_multi w key_of is_nil s expire r).1 ≡ s
  unfolding renew_multi
  renew_multi-unfit s expire (fetch_error e) unfit = refl
  renew_multi-unfit s expire no_value unfit = refl
  renew_multi-unfit s expire no_map_value unfit = refl
  renew_multi-unfit s expire (found r) unfit = ground (arith, unfit r refl)

  -- Once `RefreshMulti` has deleted the keys, a fallback that fails, returns no map, an empty one or one
  -- of other types leaves the store as the deletion left it.
  refresh_multi_leaves_deleted :
      (sh : Shapes) (s : S) (ids : List ℕ) (expire : ℕ) (f : List ℕ → FetchedMulti V) {s' : S}
      → sh.target ≡ Target.some_map
      → sh.ids_slice ≡ true
      → sh.ids_fit ≡ true
      → ids ≢ []
      → store_delete s (map key_of ids) ≡ (none, s')
      → ((r : Found V) → f ids ≡ found r → (r.fits ≡ false) ⊎ (r.entries ≡ []))
      → (refresh_multi w key_of is_nil sh s ids expire f).1 ≡ s'
  unfolding refresh_multi refresh_checked after_delete
  refresh_multi_leaves_deleted sh s [] expire f target slice fit some_ids deleted unfit =
      ground (arith, some_ids refl)
  refresh_multi_leaves_deleted sh s (id ∷ ids) expire f {s'} target slice fit some_ids deleted
        unfit =
      ground (arith, renew_multi-unfit s' expire (f (id ∷ ids)) unfit)
