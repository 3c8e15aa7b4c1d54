-- ===== src/Users/Tests.antt =====
-- Concrete tables of users.
use protos_tpe_g.Prelude.{
  ℕ, ◌<◌, ◌++◌, length, printed, ◌≡◌, ◌↔◌, refl, true, some, none, List, [], ◌∷◌, arith, take,
}
use protos_tpe_g.Users.{
  Table, users_init_from_args, users_add, users_remove, users_credentials_are_valid, users_count,
  ok, add_valid, find_user_index, find_free_index,
}
use protos_tpe_g.Users.Format.{count_line, users_format_list, user_lines, users_format_list-printed}
use protos_tpe_g.Users.View.{password_of}
use protos_tpe_g.Users.Invariant.{IsValid, users_init_from_args-IsValid}
use protos_tpe_g.Users.Refine.{
  Added, Removed, users_add-Added, users_remove-Removed, credentials_iff,
}

abbrev ana : List ℕ
ana = b'a' ∷ b'n' ∷ b'a' ∷ []

abbrev eva : List ℕ
eva = b'e' ∷ b'v' ∷ b'a' ∷ []

abbrev one_user : Table
one_user = users_init_from_args (some ((some ana, some eva) ∷ (none, some eva) ∷ []))

one_is_kept : users_count one_user ≡ 1
unfolding users_count users_init_from_args users_add add_valid find_user_index find_free_index
one_is_kept = refl

eva_is_added : (users_add one_user (some eva) (some ana)).0 ≡ ok
unfolding users_init_from_args users_add add_valid find_user_index find_free_index
eva_is_added = refl

one_user-IsValid : IsValid one_user
one_user-IsValid =
    users_init_from_args-IsValid (some ((some ana, some eva) ∷ (none, some eva) ∷ []))

add_example : Added one_user eva ana (users_add one_user (some eva) (some ana))
add_example =
    users_add-Added one_user eva ana one_user-IsValid (omega arith, omega arith)
      (omega arith, omega arith)

remove_example : Removed one_user ana (users_remove one_user (some ana))
remove_example = users_remove-Removed one_user ana one_user-IsValid (omega arith, omega arith)

credentials_example :
    (users_credentials_are_valid one_user (b'a' ∷ ana) 1 eva 3 ≡ true)
    ↔ (password_of one_user (take 1 (b'a' ∷ ana)) ≡ some (take 3 eva))
credentials_example =
    credentials_iff (b'a' ∷ ana) eva 1 3 (omega arith) (omega arith) one_user one_user-IsValid

list_example :
    (users_format_list 20 one_user
      ≡ printed 20 (count_line (users_count one_user) ++ user_lines one_user))
    × (length (users_format_list 20 one_user) < 20)
list_example = users_format_list-printed 20 one_user (omega arith)
