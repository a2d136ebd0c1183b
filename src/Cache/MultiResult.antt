-- ===== src/Cache/MultiResult.antt =====
-- onecache/box.go: what `GetMulti` leaves in the destination and in the store.
use eins.Prelude.{
  ℕ, ◌≡◌, ◌≢◌, refl, ◌∙◌, Bool, true, Option, none, some, List, [], ◌∷◌, map, keep_if, not, arith,
  ==_iff, if_true, if◌then◌else◌,
}
use mathlib.Core.Path.{fun_ext, ap₂}
use eins.Cache.{ok, World, CacheConfig}
use eins.Cache.Multi.{
  some_map, Shapes, Found, found, id_of, part, keys_of, values_of, without_nil, write_all, save,
  fill_multi, ask_misses, after_get, on_answer, get_checked, get_multi,
}
use eins.Cache.Hits.{has_id, or_else, uncached, with_hits, part-hits, part-misses, id_of_self}

abbrev pub asked_of : List ℕ → Option (List ℕ)
asked_of [] = none
asked_of (m ∷ ms) = some (m ∷ ms)

module _ {S L V T : Type 0} (w : World S L V T) (key_of : ℕ → ℕ) (is_nil : V → Bool)
    (answers : List ℕ → Found V) where
  open w use {store_get_multi, store_set_multi}

  -- The entries that the fallback's answer for the missing ids brings, without the nil ones: none if none
  -- is missing.
  abbrev pub answered : List ℕ → List (ℕ × V)
  answered [] = []
  answered (m ∷ ms) = keep_if (λ e. not (is_nil e.1)) (answers (m ∷ ms)).entries

  -- The store after the entries were handed to `SetMulti`, which is not called without any.
  abbrev pub store_after : S → ℕ → List (ℕ × V) → S
  store_after s expire [] = s
  store_after s expire (e ∷ es) =
      (store_set_multi s (keys_of key_of (e ∷ es)) (values_of (e ∷ es)) expire).1

  -- The fallback's maps have the kinds and the types of the destination.
  abbrev pub Fitting : Shapes → Type 0
  Fitting sh =
      (ms : List ℕ)
      → ((answers ms).key_kind ≡ sh.key_kind)
        × ((answers ms).value_kind ≡ sh.value_kind)
        × ((answers ms).fits ≡ true)

  without_nil-keep_if :
      (es : List (ℕ × V)) → without_nil is_nil es ≡ keep_if (λ e. not (is_nil e.1)) es
  unfolding without_nil
  without_nil-keep_if [] = refl
  without_nil-keep_if (e ∷ es) = ground (arith, without_nil-keep_if es)

  save_fitting :
      (s : S) (l : L) (dst : ℕ → Option V) (asked : List ℕ) (expire : ℕ) (es : List (ℕ × V))
      → save w key_of is_nil s l dst asked expire true es ≡ record {
        store = store_after s expire es;
        limiter = l;
        dst = write_all es dst;
        asked = some asked;
        verdict = ok;
      }
  unfolding save write_all
  save_fitting s l dst asked expire [] = refl
  save_fitting s l dst asked expire (e ∷ es) = refl

  ask_misses-Fitting :
      (sh : Shapes) (s : S) (l : L) (dst : ℕ → Option V) (misses : List ℕ) (expire : ℕ)
      → Fitting sh
      → ask_misses w key_of is_nil sh s l dst misses expire (λ ms. found (answers ms)) ≡ record {
        store = store_after s expire (answered misses);
        limiter = l;
        dst = write_all (answered misses) dst;
        asked = asked_of misses;
        verdict = ok;
      }
  unfolding ask_misses fill_multi write_all
  ask_misses-Fitting sh s l dst [] expire fit = refl
  ask_misses-Fitting sh s l dst (m ∷ ms) expire fit =
      let (keys, values, fits) = fit (m ∷ ms) in
      ground (
        arith,
        without_nil-keep_if (answers (m ∷ ms)).entries,
        save_fitting s l dst (m ∷ ms) expire (answered (m ∷ ms)),
        ==_iff (answers (m ∷ ms)).key_kind sh.key_kind,
        ==_iff (answers (m ∷ ms)).value_kind sh.value_kind,
      )

  after_get-Fitting :
      (sh : Shapes) (s : S) (l : L) (ids : List ℕ) (dst cached : ℕ → Option V) (expire : ℕ)
      → ((i j : ℕ) → key_of i ≡ key_of j → i ≡ j)
      → sh.ids_fit ≡ true
      → Fitting sh
      → let missing = uncached key_of cached ids in
        after_get w key_of is_nil sh s l ids cached dst expire (λ ms. found (answers ms)) ≡ record {
          store = store_after s expire (answered missing);
          limiter = l;
          dst =
              write_all
                (answered missing)
                (λ j. if has_id j ids then or_else (cached (key_of j)) (dst j) else dst j);
          asked = asked_of missing;
          verdict = ok;
        }
  unfolding after_get
  after_get-Fitting sh s l ids dst cached expire one_key id_fit fit =
      let f = λ (ms : List ℕ). found (answers ms) in
      let known : (id : ℕ) → has_id id ids ≡ true → id_of key_of ids (key_of id) ≡ some id =
        id_of_self key_of one_key ids in
      let parted = part (id_of key_of ids) cached (map key_of ids) dst [] in
      let hits =
        fun_ext λ j. part-hits key_of one_key cached (id_of key_of ids) ids dst [] j known in
      let misses = part-misses key_of one_key cached (id_of key_of ids) ids dst [] known in
      if_true sh.ids_fit _ _ id_fit
      ∙ ap₂ (λ (d : ℕ → Option V) (ms : List ℕ). ask_misses w key_of is_nil sh s l d ms expire f)
          hits misses
      ∙ ask_misses-Fitting sh s l (with_hits key_of one_key cached ids dst)
          (uncached key_of cached ids) expire fit

  -- Into a map, with ids of the type of its keys and one key for each id, a store that answers and a
  -- fallback whose maps fit: `GetMulti` asks the fallback for the ids that the store has no value of, if
  -- there are any. It leaves under each id what the fallback returned, unless it is nil, or else what the
  -- store has, or else what was there; it hands what it got from the fallback to `SetMulti`.
  pub get_multi_result :
      (c : CacheConfig) (sh : Shapes) (s s' : S) (l : L) (ids : List ℕ) (dst cached : ℕ → Option V)
      (expire : ℕ)
      → ((i j : ℕ) → key_of i ≡ key_of j → i ≡ j)
      → sh.target ≡ some_map
      → sh.ids_slice ≡ true
      → sh.ids_fit ≡ true
      → sh.id_kind ≡ sh.key_kind
      → ids ≢ []
      → store_get_multi s (map key_of ids) ≡ ((none, cached), s')
      → Fitting sh
      → let missing = uncached key_of cached ids in
        get_multi w key_of is_nil c sh s l ids dst expire (λ ms. found (answers ms)) ≡ record {
          store = store_after s' expire (answered missing);
          limiter = l;
          dst =
              write_all
                (answered missing)
                (λ j. if has_id j ids then or_else (cached (key_of j)) (dst j) else dst j);
          asked = asked_of missing;
          verdict = ok;
        }
  unfolding get_multi get_checked on_answer
  get_multi_result c sh s s' l [] dst cached expire one_key target slice id_fit kinds some_ids
        answer fit =
      absurd (some_ids refl)
  get_multi_result c sh s s' l (i ∷ is) dst cached expire one_key target slice id_fit kinds some_ids
        answer fit =
      let rest = after_get-Fitting sh s' l (i ∷ is) dst cached expire one_key id_fit fit in
      ground (arith, rest, ==_iff sh.id_kind sh.key_kind)
