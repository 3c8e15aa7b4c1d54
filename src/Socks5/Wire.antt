-- ===== src/Socks5/Wire.antt =====
-- The wire form of a CONNECT request (RFC 1928, section 4), and what `socks5.c` makes of it.
use protos_tpe_g.Prelude.{
  ℕ, ◌+◌, ◌/◌, ◌%◌, ◌≤◌, ◌<◌, ◌≡◌, ◌∙◌, some, List, [], ◌∷◌, ◌++◌, append_assoc, arith, length,
  length-append, get_or-past, take-append, be16, be16_lem,
}
use protos_tpe_g.Socks5.{
  Request, inet, inet6, unset, atyp_ipv4, atyp_ipv6, atyp_domain, byte_at, parse_connect_request,
}

-- what a client may ask to be connected to
pub data Address : Type 0 where
  ipv4 : List ℕ → Address
  ipv6 : List ℕ → Address
  domain : List ℕ → Address

abbrev pub IsAddress : Address → Type 0
IsAddress (ipv4 ip) = length ip ≡ 4
IsAddress (ipv6 ip) = length ip ≡ 16
IsAddress (domain host) = (0 < length host) × (length host < 256)

abbrev pub port_bytes : ℕ → List ℕ
port_bytes port = port / 256 ∷ port % 256 ∷ []

abbrev pub address_bytes : Address → List ℕ
address_bytes (ipv4 ip) = atyp_ipv4 ∷ ip
address_bytes (ipv6 ip) = atyp_ipv6 ∷ ip
address_bytes (domain host) = atyp_domain ∷ length host ∷ host

abbrev pub encode : Address → ℕ → List ℕ
encode a port = 0x05 ∷ 0x01 ∷ 0x00 ∷ (address_bytes a ++ port_bytes port)

abbrev pub request_of : Address → ℕ → Request
request_of (ipv4 ip) port = record { atyp = atyp_ipv4; port = port; host = []; addr = inet ip port }
request_of (ipv6 ip) port = record {
  atyp = atyp_ipv6;
  port = port;
  host = [];
  addr = inet6 ip port;
}
request_of (domain host) port = record {
  atyp = atyp_domain;
  port = port;
  host = host;
  addr = unset;
}

be16-port_bytes : (port : ℕ) → port < 65536 → be16 (port / 256) (port % 256) ≡ port
be16-port_bytes port h =
    be16_lem (port / 256) (port % 256) (omega arith) (omega arith) ∙ omega arith

-- The bytes of the port lie behind the address.
module _ (front host rest : List ℕ) (i hi lo : ℕ) (e : i ≡ length front + length host) where
  port_high : byte_at (front ++ (host ++ (hi ∷ lo ∷ rest))) i ≡ hi
  port_high =
      get_or-past front _ i (length host) 0 e ∙ get_or-past host _ (length host) 0 0 (omega arith)

  port_low : byte_at (front ++ (host ++ (hi ∷ lo ∷ rest))) (i + 1) ≡ lo
  port_low =
      get_or-past front _ (i + 1) (length host + 1) 0 (omega arith)
      ∙ get_or-past host _ (length host + 1) 1 0 (omega arith)

module _ (port len : ℕ) (rest : List ℕ) (p : port < 65536) where
  parse-ipv4 :
      (ip : List ℕ)
      → length ip ≡ 4
      → 10 ≤ len
      → parse_connect_request
          (0x05 ∷ 0x01 ∷ 0x00 ∷ atyp_ipv4 ∷ (ip ++ (port / 256 ∷ port % 256 ∷ rest)))
          len
        ≡ some (request_of (ipv4 ip) port)
  unfolding parse_connect_request
  parse-ipv4 ip n h = ground (
    arith,
    port_high (0x05 ∷ 0x01 ∷ 0x00 ∷ atyp_ipv4 ∷ []) ip rest 8 (port / 256) (port % 256),
    port_low (0x05 ∷ 0x01 ∷ 0x00 ∷ atyp_ipv4 ∷ []) ip rest 8 (port / 256) (port % 256),
    be16-port_bytes port,
    take-append ip (port / 256 ∷ port % 256 ∷ rest),
  )

  parse-ipv6 :
      (ip : List ℕ)
      → length ip ≡ 16
      → 22 ≤ len
      → parse_connect_request
          (0x05 ∷ 0x01 ∷ 0x00 ∷ atyp_ipv6 ∷ (ip ++ (port / 256 ∷ port % 256 ∷ rest)))
          len
        ≡ some (request_of (ipv6 ip) port)
  unfolding parse_connect_request
  parse-ipv6 ip n h = ground (
    arith,
    port_high (0x05 ∷ 0x01 ∷ 0x00 ∷ atyp_ipv6 ∷ []) ip rest 20 (port / 256) (port % 256),
    port_low (0x05 ∷ 0x01 ∷ 0x00 ∷ atyp_ipv6 ∷ []) ip rest 20 (port / 256) (port % 256),
    be16-port_bytes port,
    take-append ip (port / 256 ∷ port % 256 ∷ rest),
  )

  parse-domain :
      (host : List ℕ)
      → 0 < length host
      → 7 + length host ≤ len
      → parse_connect_request
          (0x05
            ∷ 0x01
            ∷ 0x00
            ∷ atyp_domain
            ∷ length host
            ∷ (host ++ (port / 256 ∷ port % 256 ∷ rest)))
          len
        ≡ some (request_of (domain host) port)
  unfolding parse_connect_request
  parse-domain host n h = ground (
    arith,
    port_high (0x05 ∷ 0x01 ∷ 0x00 ∷ atyp_domain ∷ length host ∷ []) host rest (5 + length host)
        (port / 256) (port % 256),
    port_low (0x05 ∷ 0x01 ∷ 0x00 ∷ atyp_domain ∷ length host ∷ []) host rest (5 + length host)
        (port / 256) (port % 256),
    be16-port_bytes port,
    take-append host (port / 256 ∷ port % 256 ∷ rest),
  )

-- Where the encoded address ends, for each form.
pub length-encode : (a : Address) (port : ℕ) → length (encode a port) ≡ 5 + length (address_bytes a)
length-encode a port = omega (arith, length-append (address_bytes a) (port_bytes port))

-- `socks5_parse_connect_request` recovers the address and the port from the encoding of any IPv4
-- address of 4 bytes, IPv6 address of 16 or host name of 1 to 255 bytes, with any port below 65536,
-- once all the bytes of the encoding are received, whatever follows them in the buffer.
pub parse_connect_request-encode :
    (a : Address) (port len : ℕ) (rest : List ℕ)
    → IsAddress a
    → port < 65536
    → length (encode a port) ≤ len
    → parse_connect_request (encode a port ++ rest) len ≡ some (request_of a port)
parse_connect_request-encode (ipv4 ip) port len rest v p h =
    rw (append_assoc ip (port_bytes port) rest)
      (parse-ipv4 port len rest p ip v (omega (arith, length-encode (ipv4 ip) port)))
parse_connect_request-encode (ipv6 ip) port len rest v p h =
    rw (append_assoc ip (port_bytes port) rest)
      (parse-ipv6 port len rest p ip v (omega (arith, length-encode (ipv6 ip) port)))
parse_connect_request-encode (domain host) port len rest v p h =
    rw (append_assoc host (port_bytes port) rest)
      (parse-domain port len rest p host v.0 (omega (arith, length-encode (domain host) port)))
