-- ===== src/Prelude/Text.antt =====
-- Text as bytes: literals, `printf` of numbers and into a buffer, and letters without their case.
use Prim.Native.Nat.{ℕ, zero, suc, ◌+◌, ◌-◌, ◌/◌, ◌%◌, ◌≤◌}
use Prim.Native.Char.{code}
use Prim.Native.String.{String}
use mathlib.Core.Path.{◌≡◌, refl, ap}
use mathlib.Core.Bool.{Bool, true, false, ◌&&◌}
use mathlib.Core.List.{List, [], ◌∷◌, ◌++◌}
use native.Mathlib.Omega.{arith}
use protos_tpe_g.Prelude.Tests.{leb, ◌==◌, if◌then◌else◌}
use protos_tpe_g.Prelude.Lists.{length, take}

-- The bytes of a literal.
abbrev pub codes : String → List ℕ
codes String.[] = []
codes (String.◌∷◌ c s) = code c ∷ codes s

-- The digits of `n` in front of `out`, `rounds` of them at most.
unfoldable pub digits : ℕ → ℕ → List ℕ → List ℕ
digits zero n out = out
digits (suc rounds) n out =
    let more = digits rounds (n / 10) ((b'0' + n % 10) ∷ out) in if n == 0 then out else more

-- `%zu`, `%hu` and `PRIu64`: a number below 2 ^ 64 has 20 digits at most.
unfoldable pub decimal : ℕ → List ℕ
unfolding digits
decimal n = if n == 0 then b'0' ∷ [] else digits 20 n []

-- The text that `snprintf` leaves in a buffer of `size` bytes, without its NUL.
abbrev pub printed : ℕ → List ℕ → List ℕ
printed size text = take (size - 1) text

abbrev pub is_upper : ℕ → Bool
is_upper c = leb b'A' c && leb c b'Z'

abbrev pub is_lower : ℕ → Bool
is_lower c = leb b'a' c && leb c b'z'

unfoldable pub tolower : ℕ → ℕ
tolower c = if is_upper c then c + 32 else c

unfoldable pub toupper : ℕ → ℕ
toupper c = if is_lower c then c - 32 else c

-- `strcasecmp(a, b) == 0`
unfoldable pub strcasecmp_eq : List ℕ → List ℕ → Bool
unfolding tolower
strcasecmp_eq [] [] = true
strcasecmp_eq [] (b ∷ bs) = false
strcasecmp_eq (a ∷ as') [] = false
strcasecmp_eq (a ∷ as') (b ∷ bs) = tolower a == tolower b && strcasecmp_eq as' bs

module _ {ℓ} {A : Type ℓ} where
  -- A cut behind the end of the first part.
  pub take-append_past :
      (xs ys : List A) (n k : ℕ) → n ≡ length xs + k → take n (xs ++ ys) ≡ xs ++ take k ys
  take-append_past [] ys n k e = ap (λ j. take j ys) (omega arith)
  take-append_past (x ∷ xs) ys zero k e = absurd (omega arith)
  take-append_past (x ∷ xs) ys (suc n) k e =
      ap (λ r. x ∷ r) (take-append_past xs ys n k (omega arith))

  -- A cut within the first part.
  pub take-append_within : (xs ys : List A) (n : ℕ) → n ≤ length xs → take n (xs ++ ys) ≡ take n xs
  take-append_within xs ys zero h = refl
  take-append_within [] ys (suc n) h = absurd (omega arith)
  take-append_within (x ∷ xs) ys (suc n) h =
      ap (λ r. x ∷ r) (take-append_within xs ys n (omega arith))
