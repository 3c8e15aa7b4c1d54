-- ===== src/Socks5.antt =====
-- src/server/socks5.c and src/server/include/socks5.h: method choice, replies, and the CONNECT
-- request. A C buffer is the list of its bytes beside the number of them that are in use, as the
-- functions take it; a read past the list's end gives 0.
pub mod Wire
pub mod Decode
pub mod Bounds
mod Tests
use protos_tpe_g.Prelude.{
  ℕ, zero, suc, ◌+◌, ◌==◌, Bool, true, false, not, ◌&&◌, ◌||◌, if◌then◌else◌, Option, none, some,
  List, [], ◌∷◌, ltb, get_or, take, drop, be16,
}

abbrev pub socks5_version : ℕ
socks5_version = 0x05

abbrev pub method_no_auth : ℕ
method_no_auth = 0x00

abbrev pub method_username_password : ℕ
method_username_password = 0x02

abbrev pub method_no_acceptable : ℕ
method_no_acceptable = 0xff

abbrev pub cmd_connect : ℕ
cmd_connect = 0x01

abbrev pub atyp_ipv4 : ℕ
atyp_ipv4 = 0x01

abbrev pub atyp_domain : ℕ
atyp_domain = 0x03

abbrev pub atyp_ipv6 : ℕ
atyp_ipv6 = 0x04

abbrev pub reply_success : ℕ
reply_success = 0x00

abbrev pub reply_general_failure : ℕ
reply_general_failure = 0x01

abbrev pub reply_network_unreachable : ℕ
reply_network_unreachable = 0x03

abbrev pub reply_host_unreachable : ℕ
reply_host_unreachable = 0x04

abbrev pub reply_connection_refused : ℕ
reply_connection_refused = 0x05

abbrev pub reply_ttl_expired : ℕ
reply_ttl_expired = 0x06

abbrev pub reply_command_not_supported : ℕ
reply_command_not_supported = 0x07

abbrev pub reply_address_type_not_supported : ℕ
reply_address_type_not_supported = 0x08

abbrev pub ipv4_request_size : ℕ
ipv4_request_size = 10

abbrev pub ipv6_request_size : ℕ
ipv6_request_size = 22

abbrev pub auth_version : ℕ
auth_version = 0x01

abbrev pub auth_success : ℕ
auth_success = 0x00

abbrev pub auth_failure : ℕ
auth_failure = 0x01

-- `buffer[i]`
abbrev pub byte_at : List ℕ → ℕ → ℕ
byte_at buffer i = get_or buffer i 0

-- the `for` loops over `methods[i]`, `i < nmethods`: the list starts at `methods + i`
unfoldable pub offers : ℕ → List ℕ → ℕ → Bool
offers method methods zero = false
offers method [] (suc n) = 0 == method || offers method [] n
offers method (m ∷ ms) (suc n) = m == method || offers method ms n

unfoldable pub client_offers_no_auth : List ℕ → ℕ → Bool
unfolding offers
client_offers_no_auth methods nmethods = offers method_no_auth methods nmethods

unfoldable pub client_offers_username_password : List ℕ → ℕ → Bool
unfolding offers
client_offers_username_password methods nmethods = offers method_username_password methods nmethods

-- The bytes that `buffer[0 .. len)` holds after a `prepare` function, which also sets `off` to 0.
abbrev pub greeting_response : ℕ → List ℕ
greeting_response method = socks5_version ∷ method ∷ []

abbrev pub request_response : ℕ → List ℕ
request_response reply =
    socks5_version ∷ reply ∷ 0x00 ∷ atyp_ipv4 ∷ 0x00 ∷ 0x00 ∷ 0x00 ∷ 0x00 ∷ 0x00 ∷ 0x00 ∷ []

abbrev pub auth_response : ℕ → List ℕ
auth_response status = auth_version ∷ status ∷ []

-- `struct sockaddr_storage addr`, all zero or filled for one family with the port of the request
pub data SockAddr : Type 0 where
  unset : SockAddr
  inet : List ℕ → ℕ → SockAddr
  inet6 : List ℕ → ℕ → SockAddr

-- `socks5_request_t`; `host` is the C string, without its NUL
pub record Request : Type 0 where
  pub atyp : ℕ
  pub port : ℕ
  pub host : List ℕ
  pub addr : SockAddr

-- the `switch` of `socks5_request_is_incomplete`
abbrev pub incomplete_for : ℕ → List ℕ → ℕ → Bool
incomplete_for atyp buffer len =
    if atyp == atyp_ipv4
    then ltb len ipv4_request_size
    else if atyp == atyp_ipv6
    then ltb len ipv6_request_size
    else if atyp == atyp_domain
    then if ltb len 5 then true else ltb len (5 + byte_at buffer 4 + 2)
    else false

unfoldable pub request_is_incomplete : List ℕ → ℕ → Bool
request_is_incomplete buffer len =
    if ltb len 4 then true else incomplete_for (byte_at buffer 3) buffer len

unfoldable pub request_reply_for : List ℕ → ℕ → ℕ
unfolding request_is_incomplete
request_reply_for buffer len =
    if ltb len 4 || (not (byte_at buffer 0 == socks5_version) || not (byte_at buffer 2 == 0x00))
    then reply_general_failure
    else if not (byte_at buffer 1 == cmd_connect)
    then reply_command_not_supported
    else if is_unknown (byte_at buffer 3)
    then reply_address_type_not_supported
    else if request_is_incomplete buffer len
    then reply_general_failure
    else reply_success
  where
    is_unknown : ℕ → Bool
    is_unknown atyp =
        not (atyp == atyp_ipv4) && (not (atyp == atyp_domain) && not (atyp == atyp_ipv6))

-- The three address forms of `socks5_parse_connect_request`, behind its validation.
abbrev pub parse_ipv4 : List ℕ → Request
parse_ipv4 buffer = record {
  atyp = atyp_ipv4;
  port = be16 (byte_at buffer 8) (byte_at buffer 9);
  host = [];
  addr = inet (take 4 (drop 4 buffer)) (be16 (byte_at buffer 8) (byte_at buffer 9));
}

abbrev pub parse_ipv6 : List ℕ → Request
parse_ipv6 buffer = record {
  atyp = atyp_ipv6;
  port = be16 (byte_at buffer 20) (byte_at buffer 21);
  host = [];
  addr = inet6 (take 16 (drop 4 buffer)) (be16 (byte_at buffer 20) (byte_at buffer 21));
}

abbrev pub parse_domain : List ℕ → ℕ → Option Request
parse_domain buffer domain_len =
    if domain_len == 0
    then none
    else some (record {
      atyp = atyp_domain;
      port = be16 (byte_at buffer (5 + domain_len)) (byte_at buffer (5 + domain_len + 1));
      host = take domain_len (drop 5 buffer);
      addr = unset;
    })

-- what `socks5_parse_connect_request` does behind its validation; `host` is kept to the bytes that
-- `memcpy` wrote
unfoldable pub parse_address : List ℕ → Option Request
parse_address buffer =
    if byte_at buffer 3 == atyp_ipv4
    then some (parse_ipv4 buffer)
    else if byte_at buffer 3 == atyp_ipv6
    then some (parse_ipv6 buffer)
    else if byte_at buffer 3 == atyp_domain
    then parse_domain buffer (byte_at buffer 4)
    else none

-- `none` is the result `false`.
unfoldable pub parse_connect_request : List ℕ → ℕ → Option Request
unfolding request_reply_for parse_address
parse_connect_request buffer len =
    if not (request_reply_for buffer len == reply_success) then none else parse_address buffer
