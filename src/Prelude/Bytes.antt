-- ===== src/Prelude/Bytes.antt =====
-- Byte strings: C's `strcmp` and `memcmp` as tests, and bytes.
use Prim.Native.Nat.{ℕ, zero, suc, ◌+◌, ◌*◌, ◌<◌, bit_or}
use mathlib.Core.Path.{◌≡◌, refl}
use mathlib.Core.Bool.{Bool, true, false, ◌&&◌}
use mathlib.Core.List.{List, [], ◌∷◌}
use native.Mathlib.Omega.{arith}
use protos_tpe_g.Prelude.Tests.{◌==◌, ==_iff}
use protos_tpe_g.Prelude.Lists.{take}

-- `strcmp(a, b) == 0`
abbrev pub bytes_eq : List ℕ → List ℕ → Bool
bytes_eq [] [] = true
bytes_eq [] (b ∷ bs) = false
bytes_eq (a ∷ as') [] = false
bytes_eq (a ∷ as') (b ∷ bs) = a == b && bytes_eq as' bs

-- `memcmp(a, b, n) == 0`
abbrev pub memcmp_eq : List ℕ → List ℕ → ℕ → Bool
memcmp_eq a b n = bytes_eq (take n a) (take n b)

pub bytes_eq_self : (a : List ℕ) → bytes_eq a a ≡ true
bytes_eq_self [] = refl
bytes_eq_self (x ∷ xs) = ground (arith, bytes_eq_self xs)

pub bytes_eq→eq : (a b : List ℕ) → bytes_eq a b ≡ true → a ≡ b
bytes_eq→eq [] [] h = refl
bytes_eq→eq [] (b ∷ bs) h = cc
bytes_eq→eq (a ∷ xs) [] h = cc
bytes_eq→eq (a ∷ xs) (b ∷ bs) h = ground (arith, bytes_eq→eq xs bs)

-- Over a small range, check every value by evaluation.
abbrev pub all_below : ℕ → (ℕ → Bool) → Bool
all_below zero p = true
all_below (suc n) p = p n && all_below n p

pub all_below_sound : (n : ℕ) (p : ℕ → Bool) (x : ℕ) → all_below n p ≡ true → x < n → p x ≡ true
all_below_sound zero p x h lt = absurd (omega arith)
all_below_sound (suc n) p x h lt = ground (arith, all_below_sound n p x)

-- `((uint16_t) hi << 8) | (uint16_t) lo`
pub be16 : ℕ → ℕ → ℕ
be16 hi lo = bit_or (hi * 256) lo

be16_table : all_below 256 (λ hi. all_below 256 (λ lo. be16 hi lo == (hi * 256 + lo))) ≡ true
unfolding be16
be16_table = refl

-- The bits of two bytes do not overlap.
pub be16_lem : (hi lo : ℕ) → hi < 256 → lo < 256 → be16 hi lo ≡ hi * 256 + lo
be16_lem hi lo h l = (==_iff _ _).0 (
    all_below_sound 256 (λ v. be16 hi v == (hi * 256 + v)) lo
      (all_below_sound 256 (λ u. all_below 256 (λ v. be16 u v == (u * 256 + v))) hi be16_table h) l)
