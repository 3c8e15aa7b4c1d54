-- ===== src/Socks5/Bounds.antt =====
-- Which bytes of the buffer the request functions of `socks5.c` look at.
use protos_tpe_g.Prelude.{
  ℕ, zero, suc, ◌+◌, ◌≤◌, ◌<◌, ◌≡◌, refl, ap, sym, ◌∙◌, List, [], ◌∷◌, arith, take, drop, be16,
  ◌==◌, Bool-cases, ==_iff, inl, inr, ap₂, Option, none, some, if◌then◌else◌,
}
use protos_tpe_g.Socks5.{
  Request, byte_at, parse_connect_request, parse_address, parse_ipv4, parse_ipv6, parse_domain,
  request_reply_for, request_is_incomplete, reply_success, atyp_ipv4, atyp_ipv6, atyp_domain,
}

-- Two buffers that hold the same first `len` bytes.
abbrev pub SameBytes : ℕ → List ℕ → List ℕ → Type 0
SameBytes len b c = take len b ≡ take len c

byte_at-take : (len i : ℕ) (b : List ℕ) → i < len → byte_at (take len b) i ≡ byte_at b i
byte_at-take zero i b h = absurd (omega arith)
byte_at-take (suc len) i [] h = refl
byte_at-take (suc len) zero (x ∷ b) h = refl
byte_at-take (suc len) (suc i) (x ∷ b) h = byte_at-take len i b (omega arith)

byte_at_same : (len i : ℕ) (b c : List ℕ) → SameBytes len b c → i < len → byte_at b i ≡ byte_at c i
byte_at_same len i b c s h =
    sym (byte_at-take len i b h) ∙ (ap (λ l. byte_at l i) s ∙ byte_at-take len i c h)

take-drop-take :
    (len n k : ℕ) (b : List ℕ) → k + n ≤ len → take n (drop k (take len b)) ≡ take n (drop k b)
take-drop-take len zero k b h = refl
take-drop-take zero (suc n) k b h = absurd (omega arith)
take-drop-take (suc len) (suc n) k [] h = refl
take-drop-take (suc len) (suc n) zero (x ∷ b) h =
    ap (λ r. x ∷ r) (take-drop-take len n zero b (omega arith))
take-drop-take (suc len) (suc n) (suc k) (x ∷ b) h = take-drop-take len (suc n) k b (omega arith)

take_same :
    (len n k : ℕ) (b c : List ℕ)
    → SameBytes len b c
    → k + n ≤ len
    → take n (drop k b) ≡ take n (drop k c)
take_same len n k b c s h =
    sym (take-drop-take len n k b h) ∙ (ap (λ l. take n (drop k l)) s ∙ take-drop-take len n k c h)

-- The completeness test and the reply code depend on the first `len` bytes only.
pub reply_agree :
    (len : ℕ) (b c : List ℕ)
    → SameBytes len b c
    → (request_is_incomplete b len ≡ request_is_incomplete c len)
      × (request_reply_for b len ≡ request_reply_for c len)
unfolding request_reply_for
reply_agree len b c s = ground (
  arith,
  byte_at_same len 0 b c s,
  byte_at_same len 1 b c s,
  byte_at_same len 2 b c s,
  byte_at_same len 3 b c s,
  byte_at_same len 4 b c s,
)

-- How many bytes a successful validation has seen.
record Long (buffer : List ℕ) (len : ℕ) : Type 0 where
  seven : 7 ≤ len
  v4 : byte_at buffer 3 ≡ atyp_ipv4 → 10 ≤ len
  v6 : byte_at buffer 3 ≡ atyp_ipv6 → 22 ≤ len
  name : byte_at buffer 3 ≡ atyp_domain → 7 + byte_at buffer 4 ≤ len

reply_success-Long : (b : List ℕ) (len : ℕ) → request_reply_for b len ≡ reply_success → Long b len
unfolding request_reply_for
reply_success-Long b len h = ground arith

be16_same : {a b c d : ℕ} → a ≡ b → c ≡ d → be16 a c ≡ be16 b d
be16_same p q = cc

abbrev choose : ℕ → Request → Request → Option Request → Option Request
choose atyp r4 r6 rd =
    if atyp == atyp_ipv4
    then some r4
    else if atyp == atyp_ipv6
    then some r6
    else if atyp == atyp_domain
    then rd
    else none

choose_same :
    (atyp : ℕ) {r4 s4 r6 s6 : Request} {rd sd : Option Request}
    → (atyp ≡ atyp_ipv4 → r4 ≡ s4)
    → (atyp ≡ atyp_ipv6 → r6 ≡ s6)
    → (atyp ≡ atyp_domain → rd ≡ sd)
    → choose atyp r4 r6 rd ≡ choose atyp s4 s6 sd
choose_same atyp p q r = ground arith

module _ (len : ℕ) (b c : List ℕ) (s : SameBytes len b c) where
  ipv4_same : 10 ≤ len → parse_ipv4 b ≡ parse_ipv4 c
  ipv4_same h = cc (
    be16_same (byte_at_same len 8 b c s (omega arith)) (byte_at_same len 9 b c s (omega arith)),
    take_same len 4 4 b c s (omega arith),
  )

  ipv6_same : 22 ≤ len → parse_ipv6 b ≡ parse_ipv6 c
  ipv6_same h = cc (
    be16_same (byte_at_same len 20 b c s (omega arith)) (byte_at_same len 21 b c s (omega arith)),
    take_same len 16 4 b c s (omega arith),
  )

  domain_same : (n : ℕ) → 7 + n ≤ len → parse_domain b n ≡ parse_domain c n
  domain_same n h = ground (
    arith,
    be16_same (byte_at_same len (5 + n) b c s (omega arith))
        (byte_at_same len (5 + n + 1) b c s (omega arith)),
    take_same len n 5 b c s (omega arith),
  )

  address_same : Long b len → parse_address b ≡ parse_address c
  unfolding parse_address
  address_same l =
      choose_same (byte_at b 3) (λ e. ipv4_same (l.v4 e)) (λ e. ipv6_same (l.v6 e))
        (λ e. domain_same (byte_at b 4) (l.name e))
      ∙ ap₂ (λ t n. choose t (parse_ipv4 c) (parse_ipv6 c) (parse_domain c n))
          (byte_at_same len 3 b c s (omega (arith, l.seven)))
          (byte_at_same len 4 b c s (omega (arith, l.seven)))

-- `socks5_parse_connect_request` depends on the first `len` bytes only: no byte of its result is
-- read behind what was received.
pub parse_agree :
    (len : ℕ) (b c : List ℕ)
    → SameBytes len b c
    → parse_connect_request b len ≡ parse_connect_request c len
unfolding parse_connect_request
parse_agree len b c s = elim (Bool-cases (request_reply_for b len == reply_success)) [
  | inl e ↦
      rw (← (reply_agree len b c s).1, e)
        (address_same len b c s
          (reply_success-Long b len ((==_iff (request_reply_for b len) reply_success).0 e)))
  | inr e ↦ rw (← (reply_agree len b c s).1, e) refl
]
