-- ===== src/Args/Ports.antt =====
-- Port numbers as text: what `main` prints is what `port` reads.
use protos_tpe_g.Prelude.{
  ℕ, zero, suc, ◌+◌, ◌-◌, ◌*◌, ◌/◌, ◌%◌, ◌≤◌, ◌<◌, ◌≡◌, refl, ap, sym, subst, ◌∙◌, ◌==◌, true,
  false, if_lem, some, List, [], ◌∷◌, length, take, take_all, leb, digits, decimal, printed, arith,
}
use protos_tpe_g.Args.{is_space, is_digit, skip_spaces, digits_value, strtol, port_of, port}

-- the powers of 10
places : ℕ → ℕ
places zero = 1
places (suc j) = 10 * places j

digits_value-digits :
    (k n : ℕ) (out : List ℕ) → n < places k → digits_value (digits k n out) 0 ≡ digits_value out n
unfolding digits places digits_value
digits_value-digits zero n out h = ap (digits_value out) (omega arith)
digits_value-digits (suc k) n out h =
    if_lem (λ s. digits_value s 0 ≡ digits_value out n) (n == 0)
      (λ e. ap (digits_value out) (ground arith))
      (λ e.
        let d : is_digit (b'0' + n % 10) ≡ true = ground arith in
        let same : n / 10 * 10 + ((b'0' + n % 10) - b'0') ≡ n = omega arith in
        digits_value-digits k (n / 10) ((b'0' + n % 10) ∷ out) (omega arith)
        ∙ rw d (ap (digits_value out) same))

length-digits : (k n j : ℕ) (out : List ℕ) → n < places j → length (digits k n out) ≤ j + length out
unfolding digits places
length-digits zero n j out h = omega arith
length-digits (suc k) n zero out h =
    if_lem (λ (s : List ℕ). length s ≤ 0 + length out) (n == 0) (λ e. omega arith)
      (λ e. absurd (ground arith))
length-digits (suc k) n (suc j) out h =
    if_lem (λ (s : List ℕ). length s ≤ suc j + length out) (n == 0) (λ e. omega arith)
      (λ e. omega (arith, length-digits k (n / 10) j ((b'0' + n % 10) ∷ out) (omega arith)))

-- a text that starts with a digit
pub record Starts (s : List ℕ) : Type 0 where
  pub head : ℕ
  pub tail : List ℕ
  pub text : s ≡ head ∷ tail
  pub digit : is_digit head ≡ true

Starts-digits : (k n : ℕ) (out : List ℕ) → Starts out → Starts (digits k n out)
unfolding digits
Starts-digits zero n out h = h
Starts-digits (suc k) n out h =
    if_lem Starts (n == 0) (λ _. h)
      (λ _.
        Starts-digits k (n / 10) ((b'0' + n % 10) ∷ out)
          (record { head = b'0' + n % 10; tail = out; text = refl; digit = ground arith }))

strtol-digits :
    (s : List ℕ) → Starts s → strtol s ≡ some (false, (digits_value s 0).0, (digits_value s 0).1)
unfolding strtol skip_spaces
strtol-digits s h =
    let c = h.head in
    let a : is_space c ≡ false = ground (arith, h.digit) in
    let b : (c == b'-') ≡ false = ground (arith, h.digit) in
    let d : (c == b'+') ≡ false = ground (arith, h.digit) in
    let e = h.digit in
    subst (λ s. strtol s ≡ some (false, (digits_value s 0).0, (digits_value s 0).1)) (sym h.text)
      (rw (a, b, d, e) refl)

digits-Starts : (k n : ℕ) → (n == 0) ≡ false → Starts (digits (suc k) n [])
unfolding digits
digits-Starts k n e = rw e (
    Starts-digits k (n / 10) ((b'0' + n % 10) ∷ [])
      (record { head = b'0' + n % 10; tail = []; text = refl; digit = ground arith }))

port-digits : (n : ℕ) → n ≤ 65535 → (n == 0) ≡ false → port (printed 6 (digits 20 n [])) ≡ some n
unfolding port places digits_value
port-digits n h e =
    let short : take 5 (digits 20 n []) ≡ digits 20 n [] =
      take_all 5 (digits 20 n []) (omega (arith, length-digits 20 n 5 [] (omega arith))) in
    let value : digits_value (digits 20 n []) 0 ≡ (n, []) =
      digits_value-digits 20 n [] (omega arith) in
    let in_range : leb n 65535 ≡ true = ground arith in
    ap port short
    ∙ (ap port_of (strtol-digits (digits 20 n []) (digits-Starts 19 n e))
        ∙ (ap (λ (p : ℕ × List ℕ). port_of (some (false, p.0, p.1))) value ∙ rw in_range refl))

port-zero : port (printed 6 (b'0' ∷ [])) ≡ some 0
unfolding port strtol skip_spaces digits_value
port-zero = refl

-- A port number is read again from its decimal digits, and these fit into the 6 bytes that `main`
-- prints them into.
pub port-decimal : (n : ℕ) → n ≤ 65535 → port (printed 6 (decimal n)) ≡ some n
unfolding decimal
port-decimal n h =
    if_lem (λ s. port (printed 6 s) ≡ some n) (n == 0) (λ e. port-zero ∙ ap some (ground arith))
      (λ e. port-digits n h e)
