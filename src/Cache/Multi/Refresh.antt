-- ===== src/Cache/Multi/Refresh.antt =====
-- onecache/box.go: `EvictMulti` and `RefreshMulti`, which delete keys and store what a fallback returns.
use eins.Prelude.{ℕ, Bool, not, Option, none, some, List, map, length, if◌then◌else◌, ◌==◌}
use eins.Cache.{
  CacheError, bad_ids_type, bad_dst_type, bad_dst_map_value, src_dst_type_mismatch,
  bad_fallback_result_type, dst_fallback_type_mismatch, fallback_failed, Verdict, ok, panics, fails,
  World, verdict_of,
}
use eins.Cache.Multi.{
  Shapes, no_map, nil_map, nil_map_ptr, some_map, some_map_ptr, FetchedMulti, fetch_error, no_value,
  no_map_value, found, keys_of, values_of,
}

module _ {S L V T : Type 0} (w : World S L V T) (key_of : ℕ → ℕ) (is_nil : V → Bool) where
  open w use {store_delete, store_set_multi}

  -- `EvictMulti`.
  unfoldable pub evict_multi : S → Bool → List ℕ → Verdict × S
  evict_multi s ids_slice ids =
      let (err, s') = store_delete s (map key_of ids) in
      if not ids_slice
      then (fails bad_ids_type, s)
      else if length ids == 0
      then (ok, s)
      else (verdict_of err, s')

  -- `refreshMulti` behind the call of the fallback. It compares types, not kinds, and keeps nil
  -- pointers; on a nil interface `reflect` panics.
  unfoldable pub renew_multi : S → ℕ → FetchedMulti V → Verdict × S
  unfolding keys_of values_of
  renew_multi s expire (fetch_error e) = (fails (fallback_failed e), s)
  renew_multi s expire no_value = (panics, s)
  renew_multi s expire no_map_value = (fails bad_fallback_result_type, s)
  renew_multi s expire (found r) =
      let (err, s') = store_set_multi s (keys_of key_of r.entries) (values_of r.entries) expire in
      if length r.entries == 0
      then (ok, s)
      else if not r.fits
      then (fails dst_fallback_type_mismatch, s)
      else (verdict_of err, s')

  -- `refreshMulti` behind the deletion of the keys.
  unfoldable pub after_delete :
      Option CacheError → S → List ℕ → ℕ → (List ℕ → FetchedMulti V) → Verdict × S
  unfolding renew_multi
  after_delete none s ids expire f = renew_multi s expire (f ids)
  after_delete (some e) s ids expire f = (fails e, s)

  unfoldable pub refresh_checked : Shapes → S → List ℕ → ℕ → (List ℕ → FetchedMulti V) → Verdict × S
  unfolding after_delete
  refresh_checked sh s ids expire f =
      let (err, s') = store_delete s (map key_of ids) in
      if not sh.ids_slice
      then (fails bad_ids_type, s)
      else if length ids == 0
      then (ok, s)
      else if not sh.ids_fit
      then (fails src_dst_type_mismatch, s)
      else after_delete err s' ids expire f

  -- `refreshMulti`.
  unfoldable pub refresh_multi : Shapes → S → List ℕ → ℕ → (List ℕ → FetchedMulti V) → Verdict × S
  unfolding refresh_checked
  refresh_multi sh s ids expire f = elim sh.target [
    | no_map ↦ (fails bad_dst_type, s)
    | nil_map ↦ (fails bad_dst_map_value, s)
    | nil_map_ptr ↦ (fails bad_dst_type, s)
    | some_map ↦ refresh_checked sh s ids expire f
    | some_map_ptr ↦ (fails bad_dst_type, s)
  ]
