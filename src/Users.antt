-- ===== src/Users.antt =====
-- src/server/users.c: the table of users that may use the proxy. C strings are their bytes without
-- the NUL; a pointer that may be NULL is an option. The static table is passed and returned.
pub mod View
pub mod Invariant
pub mod Refine
pub mod Format
mod Tests
use protos_tpe_g.Prelude.{
  ℕ, zero, suc, ◌+◌, ◌-◌, ◌==◌, Bool, true, false, not, ◌&&◌, ◌||◌, if◌then◌else◌, Option, none,
  some, List, [], ◌∷◌, ◌++◌, ltb, leb, length, set, take, replicate, bytes_eq, memcmp_eq,
}

abbrev pub users_max : ℕ
users_max = 10

abbrev pub users_field_max : ℕ
users_field_max = 255

-- `users_result_t`
pub data Result : Type 0 where
  ok exists not_found full invalid : Result

-- `managed_user_t`
pub record ManagedUser : Type 0 where
  pub username : List ℕ
  pub password : List ℕ
  pub in_use : Bool

-- what `memset` to 0 leaves
abbrev pub cleared : ManagedUser
cleared = record { username = []; password = []; in_use = false }

-- `managed_users[USERS_MAX]`
abbrev pub Table : Type 0
Table = List ManagedUser

unfoldable pub field_is_valid : Option (List ℕ) → Bool
field_is_valid none = false
field_is_valid (some field) = ltb 0 (length field) && leb (length field) users_field_max

-- the next index of the loop that found one in the rest
abbrev pub next : Option ℕ → Option ℕ
next none = none
next (some i) = some (suc i)

abbrev pub is_user : ManagedUser → List ℕ → Bool
is_user user username = user.in_use && bytes_eq user.username username

-- `none` is -1, here and below.
unfoldable pub find_user_index : Table → List ℕ → Option ℕ
find_user_index [] username = none
find_user_index (user ∷ users) username =
    if is_user user username then some 0 else next (find_user_index users username)

unfoldable pub find_free_index : Table → Option ℕ
find_free_index [] = none
find_free_index (user ∷ users) = if not user.in_use then some 0 else next (find_free_index users)

unfoldable pub users_count : Table → ℕ
users_count [] = 0
users_count (user ∷ users) = let rest = users_count users in if user.in_use then suc rest else rest

unfoldable pub users_are_configured : Table → Bool
unfolding users_count
users_are_configured users = ltb 0 (users_count users)

-- one round of the loop of `users_credentials_are_valid`, at a user in use
abbrev pub matches : ManagedUser → List ℕ → ℕ → List ℕ → ℕ → Bool
matches user username username_len password password_len =
    length user.username == username_len
    && (length user.password == password_len
        && (memcmp_eq user.username username username_len
            && memcmp_eq user.password password password_len))

-- `username` and `password` are what the pointers lead to, and go on behind the lengths.
unfoldable pub users_credentials_are_valid : Table → List ℕ → ℕ → List ℕ → ℕ → Bool
users_credentials_are_valid [] username username_len password password_len = false
users_credentials_are_valid (user ∷ users) username username_len password password_len =
    user.in_use && matches user username username_len password password_len
    || users_credentials_are_valid users username username_len password password_len

-- `snprintf` of both fields, cut at their sizes
abbrev pub filled : List ℕ → List ℕ → ManagedUser
filled username password = record {
  username = take users_field_max username;
  password = take users_field_max password;
  in_use = true;
}

-- the part of `users_add` behind the tests of its arguments
unfoldable pub add_valid : Table → List ℕ → List ℕ → Result × Table
add_valid users username password = elim (find_user_index users username) [
  | some i ↦ (exists, users)
  | none ↦ elim (find_free_index users) [
    | none ↦ (full, users)
    | some index ↦ (ok, set users index (filled username password))
  ]
]

unfoldable pub users_add : Table → Option (List ℕ) → Option (List ℕ) → Result × Table
unfolding field_is_valid
users_add users (some username) (some password) =
    if not (field_is_valid (some username)) || not (field_is_valid (some password))
    then (invalid, users)
    else add_valid users username password
users_add users _ _ = (invalid, users)

unfoldable pub remove_valid : Table → List ℕ → Result × Table
remove_valid users username = elim (find_user_index users username) [
  | none ↦ (not_found, users)
  | some index ↦ (ok, set users index cleared)
]

unfoldable pub users_remove : Table → Option (List ℕ) → Result × Table
unfolding field_is_valid
users_remove users none = (invalid, users)
users_remove users (some username) =
    if not (field_is_valid (some username)) then (invalid, users) else remove_valid users username

-- the loop of `users_init_from_args`, over `initial_users[i .. count)` with `rounds` left to
-- `USERS_MAX`
unfoldable pub init_from : ℕ → List (Option (List ℕ) × Option (List ℕ)) → Table → Table
init_from zero initial users = users
init_from (suc rounds) [] users = users
init_from (suc rounds) ((name, pass) ∷ initial) users =
    init_from rounds initial (users_add users name pass).1

-- `none` is a NULL `initial_users`.
unfoldable pub users_init_from_args : Option (List (Option (List ℕ) × Option (List ℕ))) → Table
unfolding init_from
users_init_from_args none = replicate users_max cleared
users_init_from_args (some initial) = init_from users_max initial (replicate users_max cleared)
