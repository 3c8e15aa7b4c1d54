-- ===== src/Socks5/Decode.antt =====
-- The requests that `socks5_parse_connect_request` accepts.
use protos_tpe_g.Prelude.{
  ℕ, zero, suc, ◌+◌, ◌*◌, ◌/◌, ◌%◌, ◌≤◌, ◌<◌, ◌≡◌, refl, ap, ap₂, sym, ◌∙◌, inl, inr, some, List,
  [], ◌∷◌, ◌++◌, arith, length, length-take, take, be16, be16_lem, ◌==◌, Bool-cases,
}
use protos_tpe_g.Socks5.{
  Request, atyp_ipv4, atyp_ipv6, atyp_domain, byte_at, parse_connect_request, parse_ipv4,
  parse_ipv6, parse_domain,
}
use protos_tpe_g.Socks5.Wire.{
  Address, ipv4, ipv6, domain, IsAddress, encode, request_of, port_bytes, length-encode,
}

abbrev pub IsBytes : List ℕ → Type 0
IsBytes [] = Unit
IsBytes (b ∷ bs) = (b < 256) × IsBytes bs

pub byte_at-lt : (bs : List ℕ) (i : ℕ) → IsBytes bs → byte_at bs i < 256
byte_at-lt [] i h = omega arith
byte_at-lt (b ∷ bs) zero h = h.0
byte_at-lt (b ∷ bs) (suc i) h = byte_at-lt bs i h.1

take_two :
    (n : ℕ) (xs : List ℕ)
    → n + 2 ≤ length xs
    → take (suc (suc n)) xs ≡ take n xs ++ (byte_at xs n ∷ byte_at xs (suc n) ∷ [])
take_two zero [] h = absurd (omega arith)
take_two zero (x ∷ []) h = absurd (omega arith)
take_two zero (x ∷ y ∷ xs) h = refl
take_two (suc n) [] h = absurd (omega arith)
take_two (suc n) (x ∷ xs) h = ap (λ r. x ∷ r) (take_two n xs (omega arith))

-- The last two of `n + 2` bytes are the bytes of the port that they are read as.
port_bytes-be16 :
    (n : ℕ) (xs : List ℕ)
    → IsBytes xs
    → n + 2 ≤ length xs
    → take n xs ++ port_bytes (be16 (byte_at xs n) (byte_at xs (suc n))) ≡ take (suc (suc n)) xs
port_bytes-be16 n xs b h =
    ap (λ r. take n xs ++ r) (ap₂ (λ u v. u ∷ v ∷ []) high low) ∙ sym (take_two n xs h)
  where
    value : be16 (byte_at xs n) (byte_at xs (suc n)) ≡ byte_at xs n * 256 + byte_at xs (suc n)
    value =
        be16_lem (byte_at xs n) (byte_at xs (suc n)) (byte_at-lt xs n b) (byte_at-lt xs (suc n) b)

    high : be16 (byte_at xs n) (byte_at xs (suc n)) / 256 ≡ byte_at xs n
    high = omega (arith, value, byte_at-lt xs (suc n) b)

    low : be16 (byte_at xs n) (byte_at xs (suc n)) % 256 ≡ byte_at xs (suc n)
    low = omega (arith, value, byte_at-lt xs (suc n) b)

-- The received bytes begin with the encoding of some address and port, which the request states.
pub record Decodes (buffer : List ℕ) (len : ℕ) (r : Request) : Type 0 where
  pub address : Address
  pub port : ℕ
  pub valid : IsAddress address
  pub short : port < 65536
  pub received : length (encode address port) ≤ len
  pub bytes : take (length (encode address port)) buffer ≡ encode address port
  pub states : r ≡ request_of address port

-- What a successful parse has checked, by the form of the address.
data Accepted (buffer : List ℕ) (len : ℕ) (r : Request) : Type 0 where
  v4 : byte_at buffer 3 ≡ atyp_ipv4 → 10 ≤ len → r ≡ parse_ipv4 buffer → Accepted buffer len r
  v6 : byte_at buffer 3 ≡ atyp_ipv6 → 22 ≤ len → r ≡ parse_ipv6 buffer → Accepted buffer len r
  name :
      byte_at buffer 3 ≡ atyp_domain
      → 7 + byte_at buffer 4 ≤ len
      → 0 < byte_at buffer 4
      → parse_domain buffer (byte_at buffer 4) ≡ some r
      → Accepted buffer len r

record Header (buffer : List ℕ) (len : ℕ) : Type 0 where
  four : 4 ≤ len
  version : byte_at buffer 0 ≡ 0x05
  command : byte_at buffer 1 ≡ 0x01
  reserved : byte_at buffer 2 ≡ 0x00

parse-Header :
    (buffer : List ℕ) (len : ℕ) {r : Request}
    → parse_connect_request buffer len ≡ some r
    → Header buffer len
unfolding parse_connect_request
parse-Header buffer len h = ground arith

parse-Accepted :
    (buffer : List ℕ) (len : ℕ) {r : Request}
    → parse_connect_request buffer len ≡ some r
    → Accepted buffer len r
unfolding parse_connect_request
parse-Accepted buffer len h = elim (Bool-cases (byte_at buffer 3 == atyp_ipv4)) [
  | inl e ↦ v4 (ground arith) (ground arith) (ground arith)
  | inr ne ↦ elim (Bool-cases (byte_at buffer 3 == atyp_ipv6)) [
    | inl e ↦ v6 (ground arith) (ground arith) (ground arith)
    | inr ne' ↦ name (ground arith) (ground arith) (ground arith) (ground arith)
  ]
]

be16-lt : (hi lo : ℕ) → hi < 256 → lo < 256 → be16 hi lo < 65536
be16-lt hi lo h l = omega (arith, be16_lem hi lo h l)

-- Cut a buffer at the end of an encoding whose length is known.
take-encode :
    (n : ℕ) (a : Address) (port : ℕ) (buffer : List ℕ)
    → length (encode a port) ≡ n
    → take n buffer ≡ encode a port
    → take (length (encode a port)) buffer ≡ encode a port
take-encode n a port buffer e h = ap (λ k. take k buffer) e ∙ h

-- The header of four bytes in front of the rest of the buffer.
front :
    {b c d e b' c' d' e' : ℕ} {xs ys : List ℕ}
    → b ≡ b'
    → c ≡ c'
    → d ≡ d'
    → e ≡ e'
    → xs ≡ ys
    → b ∷ c ∷ d ∷ e ∷ xs ≡ b' ∷ c' ∷ d' ∷ e' ∷ ys
front p q r s t = cc

module _ (b c d e len : ℕ) (tail : List ℕ) (bs : IsBytes tail) (fits : len ≤ 4 + length tail) where
  decode-ipv4 :
      {r : Request}
      → Header (b ∷ c ∷ d ∷ e ∷ tail) len
      → e ≡ atyp_ipv4
      → 10 ≤ len
      → r ≡ parse_ipv4 (b ∷ c ∷ d ∷ e ∷ tail)
      → Decodes (b ∷ c ∷ d ∷ e ∷ tail) len r
  decode-ipv4 hd t n s = record {
    address = ipv4 (take 4 tail);
    port = be16 (byte_at tail 4) (byte_at tail 5);
    valid = omega (arith, length-take 4 tail);
    short = be16-lt _ _ (byte_at-lt tail 4 bs) (byte_at-lt tail 5 bs);
    received = omega (arith, size);
    bytes =
        take-encode 10 (ipv4 (take 4 tail)) _ (b ∷ c ∷ d ∷ e ∷ tail) size (
          front hd.version hd.command hd.reserved t
            (sym (port_bytes-be16 4 tail bs (omega arith))));
    states = s;
  }
    where
      size : length (encode (ipv4 (take 4 tail)) (be16 (byte_at tail 4) (byte_at tail 5))) ≡ 10
      size = omega (
        arith,
        length-encode (ipv4 (take 4 tail)) (be16 (byte_at tail 4) (byte_at tail 5)),
        length-take 4 tail,
      )

  decode-ipv6 :
      {r : Request}
      → Header (b ∷ c ∷ d ∷ e ∷ tail) len
      → e ≡ atyp_ipv6
      → 22 ≤ len
      → r ≡ parse_ipv6 (b ∷ c ∷ d ∷ e ∷ tail)
      → Decodes (b ∷ c ∷ d ∷ e ∷ tail) len r
  decode-ipv6 hd t n s = record {
    address = ipv6 (take 16 tail);
    port = be16 (byte_at tail 16) (byte_at tail 17);
    valid = omega (arith, length-take 16 tail);
    short = be16-lt _ _ (byte_at-lt tail 16 bs) (byte_at-lt tail 17 bs);
    received = omega (arith, size);
    bytes = take-encode 22 (ipv6 (take 16 tail)) _ (b ∷ c ∷ d ∷ e ∷ tail) size (
        front hd.version hd.command hd.reserved t (sym (port_bytes-be16 16 tail bs (omega arith))));
    states = s;
  }
    where
      size : length (encode (ipv6 (take 16 tail)) (be16 (byte_at tail 16) (byte_at tail 17))) ≡ 22
      size = omega (
        arith,
        length-encode (ipv6 (take 16 tail)) (be16 (byte_at tail 16) (byte_at tail 17)),
        length-take 16 tail,
      )

module _ (b c d e n len : ℕ) (tail : List ℕ) (bs : IsBytes tail)
    (fits : len ≤ 5 + length tail) where
  decode-domain :
      {r : Request}
      → Header (b ∷ c ∷ d ∷ e ∷ n ∷ tail) len
      → e ≡ atyp_domain
      → n < 256
      → 7 + n ≤ len
      → 0 < n
      → parse_domain (b ∷ c ∷ d ∷ e ∷ n ∷ tail) n ≡ some r
      → Decodes (b ∷ c ∷ d ∷ e ∷ n ∷ tail) len r
  decode-domain hd t small m pos s = record {
    address = domain (take n tail);
    port = be16 (byte_at tail n) (byte_at tail (suc n));
    valid = (omega (arith, long), omega (arith, long));
    short = be16-lt _ _ (byte_at-lt tail n bs) (byte_at-lt tail (suc n) bs);
    received = omega (arith, size);
    bytes = take-encode (7 + n) (domain (take n tail)) _ (b ∷ c ∷ d ∷ e ∷ n ∷ tail) size (
        ap (λ k. take k (b ∷ c ∷ d ∷ e ∷ n ∷ tail)) seven
        ∙ front hd.version hd.command hd.reserved t
            (ap₂ (λ u v. u ∷ v) (sym long) (sym (port_bytes-be16 n tail bs (omega arith)))));
    states = ground (arith, past n (5 + n) (omega arith), past (suc n) (5 + n + 1) (omega arith));
  }
    where
      long : length (take n tail) ≡ n
      long = omega (arith, length-take n tail)

      past :
          (i k : ℕ)
          → k ≡ suc (suc (suc (suc (suc i))))
          → byte_at (b ∷ c ∷ d ∷ e ∷ n ∷ tail) k ≡ byte_at tail i
      past i k h = ap (byte_at (b ∷ c ∷ d ∷ e ∷ n ∷ tail)) h

      seven : 7 + n ≡ suc (suc (suc (suc (suc (suc (suc n))))))
      seven = omega arith

      size :
          length (encode (domain (take n tail)) (be16 (byte_at tail n) (byte_at tail (suc n))))
          ≡ 7 + n
      size = omega (
        arith,
        length-encode (domain (take n tail)) (be16 (byte_at tail n) (byte_at tail (suc n))),
        long,
      )

decode_cases :
    (buffer : List ℕ) (len : ℕ) {r : Request}
    → IsBytes buffer
    → len ≤ length buffer
    → Header buffer len
    → Accepted buffer len r
    → Decodes buffer len r
decode_cases (b ∷ c ∷ d ∷ e ∷ tail) len bs fits hd (v4 t n s) =
    decode-ipv4 b c d e len tail bs.1.1.1.1 (omega arith) hd t n s
decode_cases (b ∷ c ∷ d ∷ e ∷ tail) len bs fits hd (v6 t n s) =
    decode-ipv6 b c d e len tail bs.1.1.1.1 (omega arith) hd t n s
decode_cases (b ∷ c ∷ d ∷ e ∷ n ∷ tail) len bs fits hd (name t m pos s) =
    decode-domain b c d e n len tail bs.1.1.1.1.1 (omega arith) hd t bs.1.1.1.1.0 m pos s
decode_cases (b ∷ c ∷ d ∷ e ∷ []) len bs fits hd (name t m pos s) = absurd (omega arith)
decode_cases (b ∷ c ∷ d ∷ []) len bs fits hd a = absurd (omega (arith, hd.four))
decode_cases (b ∷ c ∷ []) len bs fits hd a = absurd (omega (arith, hd.four))
decode_cases (b ∷ []) len bs fits hd a = absurd (omega (arith, hd.four))
decode_cases [] len bs fits hd a = absurd (omega (arith, hd.four))

-- If a buffer of bytes, of which `len` are received, parses as a request, then the received bytes
-- begin with the encoding of a valid address and a port below 65536, and the request states these.
pub parse_connect_request_sound :
    (buffer : List ℕ) (len : ℕ) {r : Request}
    → IsBytes buffer
    → len ≤ length buffer
    → parse_connect_request buffer len ≡ some r
    → Decodes buffer len r
parse_connect_request_sound buffer len bs fits h =
    decode_cases buffer len bs fits (parse-Header buffer len h) (parse-Accepted buffer len h)
