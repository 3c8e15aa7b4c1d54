-- ===== src/Socks5/Tests.antt =====
-- Concrete runs of the request functions.
use protos_tpe_g.Prelude.{ℕ, ◌≡◌, refl, true, some, List, [], ◌∷◌, ◌++◌, arith}
use protos_tpe_g.Socks5.{
  request_reply_for, parse_connect_request, client_offers_no_auth, client_offers_username_password,
}
use protos_tpe_g.Socks5.Wire.{
  Address, ipv4, domain, encode, request_of, parse_connect_request-encode,
}
use protos_tpe_g.Socks5.Decode.{Decodes, parse_connect_request_sound}

abbrev host : Address
host = domain (b'a' ∷ b'.' ∷ b'b' ∷ [])

abbrev local : Address
local = ipv4 (127 ∷ 0 ∷ 0 ∷ 1 ∷ [])

abbrev local_request : List ℕ
local_request = encode local 8080

offers_both : client_offers_no_auth (0 ∷ 2 ∷ []) 2 ≡ true
unfolding client_offers_no_auth
offers_both = refl

offers_user : client_offers_username_password (0 ∷ 2 ∷ []) 2 ≡ true
unfolding client_offers_username_password
offers_user = refl

bind_refused : request_reply_for (5 ∷ 2 ∷ 0 ∷ 1 ∷ []) 4 ≡ 7
unfolding request_reply_for
bind_refused = refl

parse_example : parse_connect_request (encode host 443 ++ (9 ∷ [])) 11 ≡ some (request_of host 443)
parse_example =
    parse_connect_request-encode host 443 11 (9 ∷ []) (omega arith, omega arith) (omega arith)
      (omega arith)

sound_example : Decodes local_request 10 (request_of local 8080)
sound_example =
    parse_connect_request_sound local_request 10 (ground arith) (omega arith)
      (parse_connect_request-encode local 8080 10 [] refl (omega arith) (omega arith))
