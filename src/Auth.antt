-- ===== src/Auth.antt =====
-- src/server/auth.c: the username/password sub-negotiation (RFC 1929). Of the client state only the
-- fields that the functions read or write are passed.
pub mod Wire
mod Tests
use protos_tpe_g.Prelude.{
  ℕ, ◌+◌, ◌==◌, Bool, true, false, not, if◌then◌else◌, Option, none, some, List, ltb, take, drop,
}
use protos_tpe_g.Socks5.{byte_at, auth_version}
use protos_tpe_g.Users.{Table, users_are_configured, users_credentials_are_valid}

unfoldable pub auth_is_required : Table → Bool
auth_is_required users = users_are_configured users

-- What `auth_parse_request` leaves: whether the message is complete, `*authenticated`, and the
-- user name that it stored, if any.
pub record Outcome : Type 0 where
  pub complete : Bool
  pub authenticated : Bool
  pub username : Option (List ℕ)

abbrev pub pending : Outcome
pending = record { complete = false; authenticated = false; username = none }

abbrev pub refused : Outcome
refused = record { complete = true; authenticated = false; username = none }

abbrev pub granted : List ℕ → Outcome
granted username = record { complete = true; authenticated = true; username = some username }

-- the end of `auth_parse_request`, with the whole message received
abbrev pub check_credentials : Table → List ℕ → ℕ → ℕ → Outcome
check_credentials users buffer username_len password_len =
    if users_credentials_are_valid users (drop 2 buffer) username_len
      (drop (2 + username_len + 1) buffer) password_len
    then granted (take username_len (drop 2 buffer))
    else refused

unfoldable pub auth_parse_request : Table → List ℕ → ℕ → Outcome
auth_parse_request users buffer len =
    if ltb len 2
    then pending
    else if not (byte_at buffer 0 == auth_version)
    then refused
    else let username_len = byte_at buffer 1 in
      let password_len_index = 2 + username_len in
      if ltb len (password_len_index + 1)
      then pending
      else let password_len = byte_at buffer password_len_index in
        if ltb len (password_len_index + 1 + password_len)
        then pending
        else check_credentials users buffer username_len password_len
