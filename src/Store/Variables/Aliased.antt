-- ===== src/Store/Variables/Aliased.antt =====
-- onecache/box.go over onecache/store/gcache.go: gets into variables of their own, and into one variable.
use eins.Prelude.{
  ℕ, ◌≡◌, refl, sym, ap, ◌∙◌, Bool, true, false, ◌||◌, Option, none, some, List, [], ◌∷◌, ◌==◌,
  arith, ==_iff, Bool-cases, ◌⊎◌, inl, inr,
}
use eins.Cache.{CacheError, Verdict, ok, fails, fetched, is_missing}
use eins.Store.{StoreError, backend, Gcache}
use eins.Store.Redis.Cached.{cache_error}
use eins.Store.Variables.{Shared, assigned, local_get, fill_variable, get_variable}

-- What gcache documents, with `holds` for its content: it returns what it holds, and holds only what was
-- set last under a key. It can lose a key at any time.
pub record IsLossy {G : Type 0} (b : Gcache G ℕ) (holds : G → ℕ → Option ℕ) : Type 0 where
  pub returns_held : (g g' : G) (k a : ℕ) → b.lookup g k ≡ (inr a, g') → holds g k ≡ some a
  pub lookup_adds_none :
      (g : G) (k j a : ℕ) → holds (b.lookup g k).1 j ≡ some a → holds g j ≡ some a
  pub set_adds_one :
      (g : G) (k a ttl j c : ℕ)
      → holds (b.set_with_expire g k a ttl).1 j ≡ some c
      → ((k ≡ j) × (c ≡ a)) ⊎ (holds g j ≡ some c)

module _ {G V : Type 0} (b : Gcache G ℕ) (key_not_found : ℕ) (allowed : Bool) (expire : ℕ)
    (source : ℕ → V) where
  -- Gets of keys into variables, one after the other, with fallbacks that return what the source has.
  unfoldable pub gets : Shared G V → List (ℕ × ℕ) → Shared G V
  unfolding get_variable
  gets s [] = s
  gets s ((key, dst) ∷ later) =
      gets (get_variable b key_not_found allowed s key dst expire (fetched (source key))).1 later

  abbrev IsHit : Shared G V → ℕ → ℕ → Type 0
  IsHit s key dst =
      (a : ℕ) × ((b.lookup s.cache key).0 ≡ inr a)
      × (get_variable b key_not_found allowed s key dst expire (fetched (source key)) ≡ (
        ok,
        record { cache = (b.lookup s.cache key).1; memory = assigned s.memory dst (s.memory a) },
      ))

  abbrev IsFilled : Shared G V → ℕ → ℕ → Type 0
  IsFilled s key dst =
      get_variable b key_not_found allowed s key dst expire (fetched (source key)) ≡ (
        ok,
        record {
          cache = (b.set_with_expire (b.lookup s.cache key).1 key dst expire).1;
          memory = assigned s.memory dst (source key);
        },
      )

  abbrev IsRefused : Shared G V → ℕ → ℕ → Type 0
  IsRefused s key dst =
      (e : CacheError) × (get_variable b key_not_found allowed s key dst expire
          (fetched (source key))
        ≡ (fails e, record s { cache = (b.lookup s.cache key).1 }))

  get_variable-cases :
      (s : Shared G V) (key dst : ℕ) → IsHit s key dst ⊎ (IsFilled s key dst ⊎ IsRefused s key dst)
  unfolding get_variable local_get fill_variable
  get_variable-cases s key dst = by_answer (b.lookup s.cache key).0 refl
    where
      by_answer :
          (x : StoreError ⊎ ℕ)
          → (b.lookup s.cache key).0 ≡ x
          → IsHit s key dst ⊎ (IsFilled s key dst ⊎ IsRefused s key dst)
      by_answer (inr a) e = inl (a, e, rw e refl)
      by_answer (inl x) e =
          elim (Bool-cases (is_missing (cache_error key_not_found x) || allowed)) [
            | inl goes_on ↦ inr (inl (rw (e, goes_on) refl))
            | inr stops ↦ inr (inr (cache_error key_not_found x, rw (e, stops) refl))
          ]

  module _ (holds : G → ℕ → Option ℕ) where
    -- Every address that gcache holds is that of one of the variables, which holds what the source has.
    abbrev pub Current : (ℕ → Bool) → Shared G V → Type 0
    Current used s =
        (k a : ℕ) → holds s.cache k ≡ some a → (used a ≡ true) × (s.memory a ≡ source k)

    abbrev pub with_used : (ℕ → Bool) → ℕ → ℕ → Bool
    with_used used dst a = (dst == a) || used a

    -- What was current stays so when another variable is assigned.
    elsewhere :
        (used : ℕ → Bool) (s : Shared G V) (dst : ℕ) (v : V) (k a : ℕ)
        → used dst ≡ false
        → (used a ≡ true) × (s.memory a ≡ source k)
        → (with_used used dst a ≡ true) × (assigned s.memory dst v a ≡ source k)
    elsewhere used s dst v k a fresh (there, now) =
        ground (arith, there, now, fresh, ==_iff dst a, λ (e : dst ≡ a). ap used e)

    get_variable-Current :
        (used : ℕ → Bool) (s : Shared G V) (key dst : ℕ)
        → IsLossy b holds
        → used dst ≡ false
        → Current used s
        → Current
            (with_used used dst)
            (get_variable b key_not_found allowed s key dst expire (fetched (source key))).1
    get_variable-Current used s key dst h fresh current k a held =
        let g = (b.lookup s.cache key).1 in
        let r = get_variable b key_not_found allowed s key dst expire (fetched (source key)) in
        let before : holds g k ≡ some a → (used a ≡ true) × (s.memory a ≡ source k) =
          λ e. current k a (h.lookup_adds_none s.cache key k a e) in
        let in_cache : (t : Verdict × Shared G V) → r ≡ t → holds t.1.cache k ≡ some a =
          λ t e. ap (λ (u : Verdict × Shared G V). holds u.1.cache k) (sym e) ∙ held in
        elim (get_variable-cases s key dst) [
          | inl (c, found, e) ↦
              rw e (elsewhere used s dst (s.memory c) k a fresh (before (in_cache _ e)))
          | inr (inl e) ↦ elim (h.set_adds_one g key dst expire k a (in_cache _ e)) [
            | inl (same, here) ↦
                rw (e, here) (ground (arith, ==_iff dst dst, same, λ (x : key ≡ k). ap source x))
            | inr older ↦ rw e (elsewhere used s dst (source key) k a fresh (before older))
          ]
          | inr (inr (x, e)) ↦
              let (there, now) = before (in_cache _ e) in rw e (ground (arith, there), now)
        ]

    -- The variables are not used before, and each is used once.
    abbrev pub Separate : (ℕ → Bool) → List (ℕ × ℕ) → Type 0
    Separate used [] = Unit
    Separate used ((key, dst) ∷ later) = (used dst ≡ false) × Separate (with_used used dst) later

    abbrev pub used_after : (ℕ → Bool) → List (ℕ × ℕ) → ℕ → Bool
    used_after used [] = used
    used_after used ((key, dst) ∷ later) = used_after (with_used used dst) later

    gets-Current :
        (used : ℕ → Bool) (s : Shared G V) (rs : List (ℕ × ℕ))
        → IsLossy b holds
        → Separate used rs
        → Current used s
        → Current (used_after used rs) (gets s rs)
    unfolding gets
    gets-Current used s [] h separate current = current
    gets-Current used s ((key, dst) ∷ later) h (fresh, separate) current =
        gets-Current (with_used used dst)
          (get_variable b key_not_found allowed s key dst expire (fetched (source key))).1 later h
          separate (get_variable-Current used s key dst h fresh current)

  -- Let the cache be empty, and every `Get` be given a variable of its own. Then after any of them a `Get`
  -- into another variable leaves what the source has in it, or fails and leaves it as it was, whatever
  -- gcache has lost.
  pub gets_current :
      (holds : G → ℕ → Option ℕ) (s : Shared G V) (rs : List (ℕ × ℕ)) (key dst : ℕ)
      → IsLossy b holds
      → ((k : ℕ) → holds s.cache k ≡ none)
      → Separate holds (λ _. false) rs
      → used_after holds (λ _. false) rs dst ≡ false
      → let before = gets s rs in
        let r = get_variable b key_not_found allowed before key dst expire (fetched (source key)) in
        ((r.0 ≡ ok) × (r.1.memory dst ≡ source key))
        ⊎ ((e : CacheError) × (r.0 ≡ fails e) × (r.1.memory dst ≡ before.memory dst))
  gets_current holds s rs key dst h empty separate fresh =
      let t = gets s rs in
      let current =
        gets-Current holds (λ _. false) s rs h separate λ k a held. ground (arith, empty k, held) in
      elim (get_variable-cases t key dst) [
        | inl (c, found, e) ↦
            let answer : b.lookup t.cache key ≡ (inr c, (b.lookup t.cache key).1) =
              ap (λ (x : StoreError ⊎ ℕ). (x, (b.lookup t.cache key).1)) found in
            let held = h.returns_held t.cache (b.lookup t.cache key).1 key c answer in
            inl (rw e (refl, ground (arith, ==_iff dst dst, (current key c held).1)))
        | inr (inl e) ↦ inl (rw e (refl, ground (arith, ==_iff dst dst)))
        | inr (inr (x, e)) ↦ inr (rw e (x, refl, refl))
      ]

  -- Let two keys that gcache does not have be read into the same variable `dst`. While gcache has the first
  -- of them, a `Get` of it into another variable ends without an error and leaves the value of the second.
  pub reused_variable :
      (s : Shared G V) (first second dst other : ℕ) {g h i j k : G}
      → b.lookup s.cache first ≡ (inl (backend key_not_found), g)
      → b.set_with_expire g first dst expire ≡ (none, h)
      → b.lookup h second ≡ (inl (backend key_not_found), i)
      → b.set_with_expire i second dst expire ≡ (none, j)
      → b.lookup j first ≡ (inr dst, k)
      → let before = gets s ((first, dst) ∷ (second, dst) ∷ []) in
        let r =
          get_variable b key_not_found allowed before first other expire (fetched (source first)) in
        (r.0 ≡ ok) × (r.1.memory other ≡ source second)
  unfolding gets get_variable local_get fill_variable
  reused_variable s first second dst other missing kept missing' kept' there = ground (
    arith,
    missing,
    kept,
    missing',
    kept',
    there,
    ==_iff key_not_found key_not_found,
    ==_iff dst dst,
    ==_iff other other,
  )
