-- ===== src/Selector/Capacity.antt =====
-- How the table grows.
use protos_tpe_g.Prelude.{
  if_lem, ap, ◌∙◌, ℕ, zero, suc, ◌*◌, ◌/◌, ◌^◌, ◌≤◌, ◌<◌, ◌≡◌, ◌==◌, refl, Bool-cases, inl, inr,
  arith,
}
use protos_tpe_g.Selector.{items_max_size, bits, next_capacity}

pow_suc : (b : ℕ) → 2 ^ suc b ≡ 2 * 2 ^ b
pow_suc b = omega arith

bits_above : (rounds n : ℕ) → n ≤ rounds → n < 2 ^ bits rounds n
unfolding bits
bits_above zero n h = omega arith
bits_above (suc rounds) n h =
    if_lem (λ (b : ℕ). n < 2 ^ b) (n == 0) (λ e. ground arith)
      λ e.
        let some_left : 0 < n = ground arith in
        omega (arith, bits_above rounds (n / 2) (omega arith), pow_suc (bits rounds (n / 2)))

bits_zero : (rounds : ℕ) → bits rounds 0 ≡ 0
unfolding bits
bits_zero zero = refl
bits_zero (suc rounds) = refl

bits_below : (rounds n : ℕ) → 0 < n → 2 ^ bits rounds n ≤ 2 * n
unfolding bits
bits_below zero n h = omega arith
bits_below (suc rounds) n h =
    if_lem (λ (b : ℕ). 2 ^ b ≤ 2 * n) (n == 0) (λ e. ground arith)
      λ e. elim (Bool-cases (n / 2 == 0)) [
        | inl z ↦ omega (arith, pow_suc (bits rounds (n / 2)), last (n / 2) (ground arith))
        | inr z ↦
            omega (arith, pow_suc (bits rounds (n / 2)), bits_below rounds (n / 2) (ground arith))
      ]
  where
    last : (m : ℕ) → m ≡ 0 → 2 ^ bits rounds m ≡ 1
    last m e = ap (λ k. 2 ^ bits rounds k) e ∙ ap (λ b. 2 ^ b) (bits_zero rounds)

-- For any number of items that the platform can have, the next capacity lies above it, is at most
-- 1025, and is at most twice the number and one more unless the number is 0.
pub next_capacity_bounds :
    (n : ℕ)
    → n ≤ items_max_size
    → (n < next_capacity n)
      × (next_capacity n ≤ suc items_max_size)
      × (0 < n → next_capacity n ≤ suc (2 * n))
unfolding next_capacity
next_capacity_bounds n h = ground (arith, bits_above n n (omega arith), bits_below n n)
