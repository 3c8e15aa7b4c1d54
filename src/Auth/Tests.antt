-- ===== src/Auth/Tests.antt =====
-- A concrete sub-negotiation.
use protos_tpe_g.Prelude.{ℕ, ◌≡◌, some, List, [], ◌∷◌, ◌++◌, arith}
use protos_tpe_g.Users.{Table, users_init_from_args}
use protos_tpe_g.Users.View.{password_of}
use protos_tpe_g.Users.Invariant.{users_init_from_args-IsValid}
use protos_tpe_g.Auth.{auth_parse_request}
use protos_tpe_g.Auth.Wire.{encode, verdict, auth_parse_request-encode}

abbrev ana : List ℕ
ana = b'a' ∷ b'n' ∷ b'a' ∷ []

abbrev one_user : Table
one_user = users_init_from_args (some ((some ana, some ana) ∷ []))

auth_example :
    auth_parse_request one_user (encode ana ana ++ (7 ∷ [])) 9
    ≡ verdict (password_of one_user ana) ana ana
auth_example =
    auth_parse_request-encode one_user ana ana (7 ∷ []) 9
      (users_init_from_args-IsValid (some ((some ana, some ana) ∷ []))) (omega arith)
