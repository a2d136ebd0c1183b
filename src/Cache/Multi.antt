-- ===== src/Cache/Multi.antt =====
-- onecache/box.go: `GetMulti`, and what the operations on many keys share. What
-- `reflect` says of the arguments stands in `Shapes` and `Found`; a map is a function into `Option`.
pub mod Refresh
use eins.Prelude.{
  ℕ, Bool, ◌||◌, not, Option, none, some, List, [], ◌∷◌, ◌++◌, map, length, if◌then◌else◌, ◌==◌,
}
use eins.Cache.{
  CacheError, bad_ids_type, bad_src_type, bad_dst_type, bad_dst_map_type, bad_dst_map_value,
  src_dst_type_mismatch, bad_fallback_result_type, dst_fallback_type_mismatch, fallback_failed,
  Verdict, ok, panics, fails, World, CacheConfig, can_fallback, verdict_of,
}

-- A destination: no map, a nil map, a pointer to a nil map, a map, a pointer to a map.
pub data Target : Type 0 where
  no_map nil_map nil_map_ptr some_map some_map_ptr : Target

-- What the operations compare: whether `ids` is a slice, the kinds of an id and of the key and the
-- value of the destination, and whether the type of an id fits that of the key.
pub record Shapes : Type 0 where
  pub target : Target
  pub ids_slice : Bool
  pub id_kind : ℕ
  pub key_kind : ℕ
  pub value_kind : ℕ
  pub ids_fit : Bool

-- The map that a fallback for many ids returns, in the order of its iteration. `fits` says that its
-- types can be stored in the destination, and for `refreshMulti` that they are the same.
pub record Found (V : Type 0) : Type 0 where
  pub key_kind : ℕ
  pub value_kind : ℕ
  pub fits : Bool
  pub entries : List (ℕ × V)

-- What such a fallback returns: an error, a nil interface, a value that is no map, a map.
pub data FetchedMulti (V : Type 0) : Type 0 where
  fetch_error : ℕ → FetchedMulti V
  no_value no_map_value : FetchedMulti V
  found : Found V → FetchedMulti V

-- `dstV.SetMapIndex`.
abbrev pub put_at : {V : Type 0} → (ℕ → Option V) → ℕ → V → ℕ → Option V
put_at m k v j = if k == j then some v else m j

-- `revertKeyMap`: of the ids with the same key the last one.
abbrev pub later_or : Option ℕ → Bool → ℕ → Option ℕ
later_or (some later) same id = some later
later_or none same id = if same then some id else none

unfoldable pub id_of : (ℕ → ℕ) → List ℕ → ℕ → Option ℕ
id_of key_of [] key = none
id_of key_of (id ∷ ids) key = later_or (id_of key_of ids key) (key_of id == key) id

-- The loop that parts the keys into hits, which go into the map, and misses.
unfoldable pub hit : {V : Type 0} → Option ℕ → Option V → (ℕ → Option V) → ℕ → Option V
hit (some id) (some v) dst = put_at dst id v
hit (some id) none dst = dst
hit none _ dst = dst

unfoldable pub miss : {V : Type 0} → Option ℕ → Option V → List ℕ → List ℕ
miss (some id) none misses = misses ++ id ∷ []
miss (some id) (some v) misses = misses
miss none _ misses = misses

unfoldable pub part :
    {V : Type 0}
    → (ℕ → Option ℕ)
    → (ℕ → Option V)
    → List ℕ
    → (ℕ → Option V)
    → List ℕ
    → (ℕ → Option V) × List ℕ
unfolding hit miss
part id_at cached [] dst misses = (dst, misses)
part id_at cached (key ∷ keys) dst misses =
    part id_at cached keys (hit (id_at key) (cached key) dst) (miss (id_at key) (cached key) misses)

-- The keys and the values of the fallback's map, in its order.
unfoldable pub keys_of : {V : Type 0} → (ℕ → ℕ) → List (ℕ × V) → List ℕ
keys_of key_of [] = []
keys_of key_of ((id, v) ∷ es) = key_of id ∷ keys_of key_of es

unfoldable pub values_of : {V : Type 0} → List (ℕ × V) → List V
values_of [] = []
values_of ((id, v) ∷ es) = v ∷ values_of es

-- The loop over the fallback's map leaves nil pointers out, and writes the rest to the destination.
unfoldable pub without_nil : {V : Type 0} → (V → Bool) → List (ℕ × V) → List (ℕ × V)
without_nil is_nil [] = []
without_nil is_nil ((id, v) ∷ es) =
    let rest = without_nil is_nil es in if is_nil v then rest else (id, v) ∷ rest

unfoldable pub write_all : {V : Type 0} → List (ℕ × V) → (ℕ → Option V) → ℕ → Option V
write_all [] dst = dst
write_all ((id, v) ∷ es) dst = write_all es (put_at dst id v)

-- The state after an operation on many keys. `asked` are the ids that the fallback was called with.
pub record MultiRun (S L V : Type 0) : Type 0 where
  pub store : S
  pub limiter : L
  pub dst : ℕ → Option V
  pub asked : Option (List ℕ)
  pub verdict : Verdict

module _ {S L V T : Type 0} (w : World S L V T) (key_of : ℕ → ℕ) (is_nil : V → Bool) where
  open w use {store_get_multi, store_set_multi}

  -- The end of `getMulti`: nothing is stored, and nothing can panic, if no entry is left.
  unfoldable pub save : S → L → (ℕ → Option V) → List ℕ → ℕ → Bool → List (ℕ × V) → MultiRun S L V
  unfolding keys_of values_of write_all
  save s l dst asked expire fits [] = record {
    store = s;
    limiter = l;
    dst = dst;
    asked = some asked;
    verdict = ok;
  }
  save s l dst asked expire fits (e ∷ es) =
      if fits
      then record {
        store = (store_set_multi s (keys_of key_of (e ∷ es)) (values_of (e ∷ es)) expire).1;
        limiter = l;
        dst = write_all (e ∷ es) dst;
        asked = some asked;
        verdict = ok;
      }
      else record { store = s; limiter = l; dst = dst; asked = some asked; verdict = panics }

  -- `getMulti` behind the call of the fallback for the misses.
  unfoldable pub fill_multi :
      Shapes → S → L → (ℕ → Option V) → List ℕ → ℕ → FetchedMulti V → MultiRun S L V
  unfolding save without_nil
  fill_multi sh s l dst asked expire (fetch_error e) = record {
    store = s;
    limiter = l;
    dst = dst;
    asked = some asked;
    verdict = fails (fallback_failed e);
  }
  fill_multi sh s l dst asked expire no_value = record {
    store = s;
    limiter = l;
    dst = dst;
    asked = some asked;
    verdict = fails bad_fallback_result_type;
  }
  fill_multi sh s l dst asked expire no_map_value = record {
    store = s;
    limiter = l;
    dst = dst;
    asked = some asked;
    verdict = fails bad_fallback_result_type;
  }
  fill_multi sh s l dst asked expire (found r) =
      if not (r.key_kind == sh.key_kind) || not (r.value_kind == sh.value_kind)
      then record {
        store = s;
        limiter = l;
        dst = dst;
        asked = some asked;
        verdict = fails dst_fallback_type_mismatch;
      }
      else save s l dst asked expire r.fits (without_nil is_nil r.entries)

  -- `getMulti` once the misses are known.
  unfoldable pub ask_misses :
      Shapes → S → L → (ℕ → Option V) → List ℕ → ℕ → (List ℕ → FetchedMulti V) → MultiRun S L V
  unfolding fill_multi
  ask_misses sh s l dst [] expire f = record {
    store = s;
    limiter = l;
    dst = dst;
    asked = none;
    verdict = ok;
  }
  ask_misses sh s l dst (m ∷ ms) expire f = fill_multi sh s l dst (m ∷ ms) expire (f (m ∷ ms))

  -- `getMulti` behind the store's answer. An id that does not fit the destination's key panics.
  unfoldable pub after_get :
      Shapes
      → S
      → L
      → List ℕ
      → (ℕ → Option V)
      → (ℕ → Option V)
      → ℕ
      → (List ℕ → FetchedMulti V)
      → MultiRun S L V
  unfolding id_of part ask_misses
  after_get sh s l ids cached dst expire f =
      let (dst', misses) = part (id_of key_of ids) cached (map key_of ids) dst [] in
      if sh.ids_fit
      then ask_misses sh s l dst' misses expire f
      else record { store = s; limiter = l; dst = dst; asked = none; verdict = panics }

  -- `getMulti` on the store's error: it goes on only if a fallback is allowed.
  unfoldable pub on_answer :
      CacheConfig
      → Shapes
      → S
      → L
      → List ℕ
      → Option CacheError
      → (ℕ → Option V)
      → (ℕ → Option V)
      → ℕ
      → (List ℕ → FetchedMulti V)
      → MultiRun S L V
  unfolding after_get can_fallback
  on_answer c sh s l ids none cached dst expire f = after_get sh s l ids cached dst expire f
  on_answer c sh s l ids (some e) cached dst expire f =
      let (allowed, l') = can_fallback w c l in
      if allowed
      then after_get sh s l' ids cached dst expire f
      else record { store = s; limiter = l'; dst = dst; asked = none; verdict = fails e }

  abbrev pub refuse : S → L → (ℕ → Option V) → Verdict → MultiRun S L V
  refuse s l dst v = record { store = s; limiter = l; dst = dst; asked = none; verdict = v }

  -- `getMulti` once the destination is a map.
  unfoldable pub get_checked :
      CacheConfig
      → Shapes
      → S
      → L
      → List ℕ
      → (ℕ → Option V)
      → ℕ
      → (List ℕ → FetchedMulti V)
      → MultiRun S L V
  unfolding on_answer
  get_checked c sh s l ids dst expire f =
      let ((err, cached), s') = store_get_multi s (map key_of ids) in
      if not sh.ids_slice
      then refuse s l dst (fails bad_src_type)
      else if length ids == 0
      then refuse s l dst ok
      else if not (sh.id_kind == sh.key_kind)
      then refuse s l dst (fails dst_fallback_type_mismatch)
      else on_answer c sh s' l ids err cached dst expire f

  -- `getMulti`. A pointer to a nil map is made to point to an empty one.
  unfoldable pub get_multi :
      CacheConfig
      → Shapes
      → S
      → L
      → List ℕ
      → (ℕ → Option V)
      → ℕ
      → (List ℕ → FetchedMulti V)
      → MultiRun S L V
  unfolding get_checked
  get_multi c sh s l ids dst expire f = elim sh.target [
    | no_map ↦ refuse s l dst (fails bad_dst_map_type)
    | nil_map ↦ refuse s l dst (fails bad_dst_map_value)
    | nil_map_ptr ↦ get_checked c sh s l ids (λ _. none) expire f
    | some_map ↦ get_checked c sh s l ids dst expire f
    | some_map_ptr ↦ get_checked c sh s l ids dst expire f
  ]
