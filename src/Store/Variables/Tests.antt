-- ===== src/Store/Variables/Tests.antt =====
-- onecache/store/gcache.go: gets of two keys over a map from keys to addresses.
use eins.Prelude.{
  ℕ, ◌+◌, ◌≡◌, refl, Bool, true, false, Option, none, some, [], ◌∷◌, if◌then◌else◌, ◌==◌, ==_iff,
  arith, Option-cases, ◌⊎◌, inl, inr, ℕ_discrete,
}
use eins.Cache.{CacheError, ok, fails, fetched}
use eins.Store.{StoreError, backend, Gcache}
use eins.Store.Variables.{Shared, get_variable}
use eins.Store.Variables.Aliased.{IsLossy, gets, gets_current, reused_variable}

abbrev Addresses : Type 0
Addresses = ℕ → Option ℕ

abbrev answer : Option ℕ → StoreError ⊎ ℕ
answer none = inl (backend 0)
answer (some a) = inr a

abbrev present : Option ℕ → Bool
present none = false
present (some a) = true

abbrev addresses : Gcache Addresses ℕ
addresses = record {
  lookup = λ g k. (answer (g k), g);
  has = λ g k. present (g k);
  set_with_expire = λ g k a ttl. (none, λ j. if k == j then some a else g j);
  remove = λ g k j. if k == j then none else g j;
}

abbrev content : Addresses → ℕ → Option ℕ
content g k = g k

addresses-IsLossy : IsLossy addresses content
addresses-IsLossy = record {
  returns_held = λ g g' k a e. elim (Option-cases (g k)) [
    | inl absent ↦ ground (arith, absent)
    | inr (c, there) ↦ ground (arith, there)
  ];
  lookup_adds_none = λ g k j a e. e;
  set_adds_one = λ g k a ttl j c e. ground (arith, ==_iff k j);
}

abbrev nothing_cached : Shared Addresses ℕ
nothing_cached = record { cache = λ k. none; memory = λ a. 0 }

-- The value of a key is 10 more.
abbrev source : ℕ → ℕ
source k = k + 10

gets_current_example :
    let before = gets addresses 0 false 60 source nothing_cached ((1, 100) ∷ (2, 200) ∷ []) in
    let r = get_variable addresses 0 false before 1 300 60 (fetched (source 1)) in
    ((r.0 ≡ ok) × (r.1.memory 300 ≡ source 1))
    ⊎ ((e : CacheError) × (r.0 ≡ fails e) × (r.1.memory 300 ≡ before.memory 300))
unfolding ℕ_discrete
gets_current_example =
    gets_current addresses 0 false 60 source content nothing_cached ((1, 100) ∷ (2, 200) ∷ []) 1 300
      addresses-IsLossy (λ k. refl) (refl, (refl, tt)) refl

reused_variable_example :
    let before = gets addresses 0 false 60 source nothing_cached ((1, 100) ∷ (2, 100) ∷ []) in
    let r = get_variable addresses 0 false before 1 300 60 (fetched (source 1)) in
    (r.0 ≡ ok) × (r.1.memory 300 ≡ source 2)
unfolding ℕ_discrete
reused_variable_example =
    reused_variable addresses 0 false 60 source nothing_cached 1 2 100 300 refl refl refl refl refl
