-- ===== src/Users/View.antt =====
-- The table as a map from user names to passwords, and what a write to one entry does to it.
use protos_tpe_g.Prelude.{
  ℕ, zero, suc, ◌≤◌, ◌<◌, ◌≡◌, refl, true, if◌then◌else◌, Option, none, some, List, [], ◌∷◌, length,
  set, bytes_eq, bytes_eq→eq, bytes_eq_self, arith, inl, inr, Bool-cases,
}
use protos_tpe_g.Users.{Table, is_user, find_user_index, find_free_index, users_count, cleared}

-- The password of the first user of that name.
unfoldable pub password_of : Table → List ℕ → Option (List ℕ)
password_of [] name = none
password_of (user ∷ users) name =
    if is_user user name then some user.password else password_of users name

-- No two users in use have one name.
abbrev pub Distinct : Table → Type 0
Distinct [] = Unit
Distinct (user ∷ users) =
    (user.in_use ≡ true → password_of users user.username ≡ none) × Distinct users

pub find_user_index-password_of :
    (users : Table) (name : List ℕ)
    → find_user_index users name ≡ none
    → password_of users name ≡ none
unfolding find_user_index password_of
find_user_index-password_of [] name h = refl
find_user_index-password_of (user ∷ users) name h =
    ground (arith, find_user_index-password_of users name)

-- A new entry in the first free place adds one name to the map.
pub password_of-fill :
    (users : Table) (index : ℕ) (name pass v : List ℕ)
    → find_free_index users ≡ some index
    → password_of users name ≡ none
    → password_of (set users index (record { username = name; password = pass; in_use = true })) v
      ≡ (if bytes_eq name v then some pass else password_of users v)
unfolding find_free_index password_of
password_of-fill [] index name pass v h absent = cc
password_of-fill (user ∷ users) zero name pass v h absent = ground arith
password_of-fill (user ∷ users) (suc index) name pass v h absent = ground (
  arith,
  password_of-fill users index name pass v,
  bytes_eq→eq user.username v,
  bytes_eq→eq name v,
  bytes_eq_self v,
)

pub find_user_index-get :
    (users : Table) (index : ℕ) (name : List ℕ)
    → find_user_index users name ≡ some index
    → (pass : List ℕ) × (password_of users name ≡ some pass)
unfolding find_user_index password_of
find_user_index-get [] index name h = cc
find_user_index-get (user ∷ users) zero name h = (user.password, ground arith)
find_user_index-get (user ∷ users) (suc index) name h =
    let (pass, found) = find_user_index-get users index name (ground arith) in
    elim (Bool-cases (is_user user name)) [
      | inl e ↦ (user.password, rw e refl)
      | inr e ↦ (pass, rw e found)
    ]

-- Clearing the first entry of a name takes exactly that name out of the map.
pub password_of-clear :
    (users : Table) (index : ℕ) (name v : List ℕ)
    → Distinct users
    → find_user_index users name ≡ some index
    → password_of (set users index cleared) v
      ≡ (if bytes_eq name v then none else password_of users v)
unfolding find_user_index password_of
password_of-clear [] index name v d h = cc
password_of-clear (user ∷ users) zero name v d h = ground (
  arith,
  d.0,
  bytes_eq→eq user.username name,
  bytes_eq→eq user.username v,
  bytes_eq→eq name v,
  bytes_eq_self v,
  bytes_eq_self user.username,
)
password_of-clear (user ∷ users) (suc index) name v d h = ground (
  arith,
  password_of-clear users index name v d.1,
  bytes_eq→eq user.username v,
  bytes_eq→eq name v,
  bytes_eq_self v,
)

pub users_count-le : (users : Table) → users_count users ≤ length users
unfolding users_count
users_count-le [] = omega arith
users_count-le (user ∷ users) = ground (arith, users_count-le users)

-- There is no free place exactly when all are in use.
pub find_free_index-none :
    (users : Table) → find_free_index users ≡ none → users_count users ≡ length users
unfolding find_free_index users_count
find_free_index-none [] h = refl
find_free_index-none (user ∷ users) h = ground (arith, find_free_index-none users)

pub find_free_index-some :
    (users : Table) (index : ℕ)
    → find_free_index users ≡ some index
    → users_count users < length users
unfolding find_free_index users_count
find_free_index-some [] index h = cc
find_free_index-some (user ∷ users) zero h = ground (arith, users_count-le users)
find_free_index-some (user ∷ users) (suc index) h = ground (arith, find_free_index-some users index)

pub users_count-fill :
    (users : Table) (index : ℕ) (name pass : List ℕ)
    → find_free_index users ≡ some index
    → users_count (set users index (record { username = name; password = pass; in_use = true }))
      ≡ suc (users_count users)
unfolding find_free_index users_count
users_count-fill [] index name pass h = cc
users_count-fill (user ∷ users) zero name pass h = ground arith
users_count-fill (user ∷ users) (suc index) name pass h =
    ground (arith, users_count-fill users index name pass)

pub users_count-clear :
    (users : Table) (index : ℕ) (name : List ℕ)
    → find_user_index users name ≡ some index
    → suc (users_count (set users index cleared)) ≡ users_count users
unfolding find_user_index users_count
users_count-clear [] index name h = cc
users_count-clear (user ∷ users) zero name h = ground arith
users_count-clear (user ∷ users) (suc index) name h =
    ground (arith, users_count-clear users index name)
