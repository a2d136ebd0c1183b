-- ===== src/Prelude/Family.antt =====
-- Families indexed by goroutine: an update at one index, and sums of weights over the first `n`.
use Prim.Native.Nat.{ℕ, zero, suc, ◌+◌, ◌≤◌, ◌<◌}
use mathlib.Core.Path.{◌≡◌, refl}
use mathlib.Core.Logic.{ite, ◌≢◌}
use native.Mathlib.Decide.{dec_lt, ℕ_discrete}
use native.Mathlib.Omega.{arith}

-- The family that has `new` in the place `k`.
abbrev pub update {ℓ} : {A : Type ℓ} (members : ℕ → A) (k : ℕ) (new : A) → ℕ → A
update members k new at = ite (ℕ_discrete k at) new (members at)

module _ {ℓ} {A : Type ℓ} (weight : A → ℕ) where
  -- The weights of the members below `size` together.
  pub total : (size : ℕ) → (ℕ → A) → ℕ
  total zero members = 0
  total (suc last) members = weight (members last) + total last members

  -- A change beyond the members that are counted is not seen.
  total-update_above :
      {k : ℕ} (size : ℕ) (members : ℕ → A) (new : A)
      → size ≤ k
      → total size members ≡ total size (update members k new)
  unfolding total
  total-update_above {k} zero members new beyond = refl
  total-update_above {k} (suc last) members new beyond =
      ground (arith, total-update_above {k = k} last members new)

  -- Changing one member moves the sum by the difference of its weights.
  pub total-update :
      (size : ℕ) (members : ℕ → A) (k : ℕ) (new : A)
      → k < size
      → weight new + total size members ≡ weight (members k) + total size (update members k new)
  unfolding total
  total-update zero members k new inside = absurd (omega arith)
  total-update (suc last) members k new inside = elim (dec_lt k last) [
    | no at_last ↦ ground (arith, total-update_above {k = k} last members new)
    | yes below ↦ ground (arith, total-update last members k new below)
  ]

  pub total_const : (n : ℕ) (a : A) → weight a ≡ 0 → total n (λ _. a) ≡ 0
  unfolding total
  total_const zero a h = refl
  total_const (suc n) a h = omega (arith, total_const n a h, h)

  pub total_one : (n : ℕ) (f : ℕ → A) (i : ℕ) → i < n → weight (f i) ≤ total n f
  unfolding total
  total_one zero f i h = absurd (omega arith)
  total_one (suc n) f i h = elim (dec_lt i n) [
    | yes below ↦ omega (arith, total_one n f i below)
    | no last ↦ ground arith
  ]

  pub total_two :
      (n : ℕ) (f : ℕ → A) (i j : ℕ)
      → i < n
      → j < n
      → i ≢ j
      → weight (f i) + weight (f j) ≤ total n f
  unfolding total
  total_two zero f i j h k ne = absurd (omega arith)
  total_two (suc n) f i j h k ne = elim (dec_lt i n) [
    | yes below ↦ elim (dec_lt j n) [
      | yes under ↦ omega (arith, total_two n f i j below under ne)
      | no last ↦ ground (arith, total_one n f i below)
    ]
    | no last ↦ ground (arith, total_one n f j)
  ]
