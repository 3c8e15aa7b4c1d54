-- ===== src/Auth/Wire.antt =====
-- The wire form of the sub-negotiation (RFC 1929, section 2), and what `auth.c` makes of it.
use protos_tpe_g.Prelude.{
  ℕ, ◌+◌, ◌≤◌, ◌<◌, ◌≡◌, ◌↔◌, ◌⊎◌, ◌∙◌, refl, ap, Bool, true, false, if◌then◌else◌, Option, none,
  some, List, [], ◌∷◌, ◌++◌, append_assoc, length, length-append, take, drop, drop-past,
  take-append, get_or-past, bytes_eq, bytes_eq_self, bytes_eq→eq, arith, inl, inr, Bool-cases,
  Option-cases,
}
use protos_tpe_g.Socks5.{byte_at}
use protos_tpe_g.Users.{Table, users_credentials_are_valid}
use protos_tpe_g.Users.View.{password_of}
use protos_tpe_g.Users.Invariant.{IsValid}
use protos_tpe_g.Users.Refine.{credentials_iff}
use protos_tpe_g.Auth.{Outcome, pending, refused, granted, check_credentials, auth_parse_request}

abbrev pub encode : List ℕ → List ℕ → List ℕ
encode user pass = 0x01 ∷ length user ∷ (user ++ (length pass ∷ pass))

-- What the registry of users says of a message.
abbrev pub verdict : Option (List ℕ) → List ℕ → List ℕ → Outcome
verdict none user pass = refused
verdict (some stored) user pass = if bytes_eq stored pass then granted user else refused

module _ (users : Table) (user pass rest : List ℕ) (len : ℕ) where
  abbrev buffer : List ℕ
  buffer = 0x01 ∷ length user ∷ (user ++ (length pass ∷ (pass ++ rest)))

  at_password_len : byte_at buffer (2 + length user) ≡ length pass
  at_password_len =
      get_or-past (0x01 ∷ length user ∷ []) _ (2 + length user) (length user) 0 (omega arith)
      ∙ get_or-past user _ (length user) 0 0 (omega arith)

  at_password : drop (2 + length user + 1) buffer ≡ pass ++ rest
  at_password =
      drop-past (0x01 ∷ length user ∷ []) _ (2 + length user + 1) (length user + 1) (omega arith)
      ∙ drop-past user _ (length user + 1) 1 (omega arith)

  parse_complete :
      3 + length user + length pass ≤ len
      → auth_parse_request users buffer len
        ≡ check_credentials users buffer (length user) (length pass)
  unfolding auth_parse_request
  parse_complete h = ground (arith, at_password_len)

  parse_pending :
      len < 3 + length user + length pass → auth_parse_request users buffer len ≡ pending
  unfolding auth_parse_request
  parse_pending h = ground (arith, at_password_len)

  check_credentials-verdict :
      IsValid users
      → check_credentials users buffer (length user) (length pass)
        ≡ verdict (password_of users user) user pass
  check_credentials-verdict v =
      rw (at_password, take-append user (length pass ∷ (pass ++ rest)))
        (elim (Bool-cases valid) [
          | inl yes' ↦ rw (yes', accepted yes') (rw (bytes_eq_self pass) refl)
          | inr no' ↦ rw no' (rejected no' (Option-cases (password_of users user)))
        ])
    where
      valid : Bool
      valid =
          users_credentials_are_valid users (user ++ (length pass ∷ (pass ++ rest))) (length user)
            (pass ++ rest) (length pass)

      iff : (valid ≡ true) ↔ (
          password_of users (take (length user) (user ++ (length pass ∷ (pass ++ rest))))
          ≡ some (take (length pass) (pass ++ rest)))
      iff =
          credentials_iff (user ++ (length pass ∷ (pass ++ rest))) (pass ++ rest) (length user)
            (length pass) (omega (arith, length-append user (length pass ∷ (pass ++ rest))))
            (omega (arith, length-append pass rest)) users v

      stored : (password_of users user ≡ some pass) ↔ (valid ≡ true)
      stored = (
        (λ e.
            iff.1 (rw (take-append user (length pass ∷ (pass ++ rest)), take-append pass rest) e)),
        (λ e.
            rw (take-append user (length pass ∷ (pass ++ rest)), take-append pass rest) at
              (iff.0 e)),
      )

      accepted : valid ≡ true → password_of users user ≡ some pass
      accepted e = stored.1 e

      rejected :
          valid ≡ false
          → (password_of users user ≡ none) ⊎ ((p : List ℕ) × (password_of users user ≡ some p))
          → refused ≡ verdict (password_of users user) user pass
      rejected e (inl absent) = rw absent refl
      rejected e (inr (p, found)) = rw found (elim (Bool-cases (bytes_eq p pass)) [
        | inl same ↦ absurd (clash (found ∙ ap some (bytes_eq→eq p pass same)))
        | inr differ ↦ rw differ refl
      ])
        where
          clash : password_of users user ≡ some pass → ⊥
          clash f = let t : valid ≡ true = stored.0 f in cc

buffer-encode :
    (user pass rest : List ℕ)
    → encode user pass ++ rest ≡ 0x01 ∷ length user ∷ (user ++ (length pass ∷ (pass ++ rest)))
buffer-encode user pass rest =
    ap (λ r. 0x01 ∷ length user ∷ r) (append_assoc user (length pass ∷ pass) rest)

-- Over a valid table, a message that has arrived whole is granted under its user name exactly if
-- the table gives that name that password, and is refused otherwise, whatever follows it in the
-- buffer.
pub auth_parse_request-encode :
    (users : Table) (user pass rest : List ℕ) (len : ℕ)
    → IsValid users
    → 3 + length user + length pass ≤ len
    → auth_parse_request users (encode user pass ++ rest) len
      ≡ verdict (password_of users user) user pass
auth_parse_request-encode users user pass rest len v h = rw (buffer-encode user pass rest) (
    parse_complete users user pass rest len h
    ∙ check_credentials-verdict users user pass rest len v)

-- While bytes of the message are missing, `auth_parse_request` asks for more, whatever the buffer
-- holds behind them.
pub auth_parse_request-short :
    (users : Table) (user pass rest : List ℕ) (len : ℕ)
    → len < 3 + length user + length pass
    → auth_parse_request users (encode user pass ++ rest) len ≡ pending
auth_parse_request-short users user pass rest len h =
    rw (buffer-encode user pass rest) (parse_pending users user pass rest len h)
