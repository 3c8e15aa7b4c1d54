-- ===== src/Users/Invariant.antt =====
-- What holds of the table between calls: ten places, distinct names, fields that fit.
use protos_tpe_g.Prelude.{
  ℕ, zero, suc, ◌≤◌, ◌<◌, ◌≡◌, ◌⊎◌, refl, ◌∙◌, true, Option, none, some, List, [], ◌∷◌, length,
  length-set, set, take_all, bytes_eq→eq, bytes_eq_self, arith, inl, inr, Option-cases,
}
use protos_tpe_g.Users.{
  Table, invalid, find_user_index, find_free_index, cleared, filled, add_valid, remove_valid,
  users_add, users_remove, init_from, users_init_from_args, users_max, users_field_max,
}
use protos_tpe_g.Users.View.{
  password_of, Distinct, password_of-fill, password_of-clear, find_user_index-password_of,
}

abbrev pub Fits : List ℕ → Type 0
Fits field = (0 < length field) × (length field ≤ users_field_max)

-- Every user in use has a name and a password of 1 to 255 bytes.
abbrev pub Fitting : Table → Type 0
Fitting [] = Unit
Fitting (user ∷ users) =
    (user.in_use ≡ true → Fits user.username × Fits user.password) × Fitting users

pub record IsValid (users : Table) : Type 0 where
  pub places : length users ≡ users_max
  pub distinct : Distinct users
  pub fitting : Fitting users

Fitting-fill :
    (users : Table) (index : ℕ) (name pass : List ℕ)
    → Fits name
    → Fits pass
    → Fitting users
    → Fitting (set users index (record { username = name; password = pass; in_use = true }))
Fitting-fill [] index name pass n p f = f
Fitting-fill (user ∷ users) zero name pass n p f = ((λ _. (n, p)), f.1)
Fitting-fill (user ∷ users) (suc index) name pass n p f =
    (f.0, Fitting-fill users index name pass n p f.1)

Fitting-clear : (users : Table) (index : ℕ) → Fitting users → Fitting (set users index cleared)
Fitting-clear [] index f = f
Fitting-clear (user ∷ users) zero f = ((λ e. cc), f.1)
Fitting-clear (user ∷ users) (suc index) f = (f.0, Fitting-clear users index f.1)

Distinct-fill :
    (users : Table) (index : ℕ) (name pass : List ℕ)
    → find_free_index users ≡ some index
    → password_of users name ≡ none
    → Distinct users
    → Distinct (set users index (record { username = name; password = pass; in_use = true }))
unfolding find_free_index password_of
Distinct-fill [] index name pass h a d = d
Distinct-fill (user ∷ users) zero name pass h a d = ((λ _. ground arith), d.1)
Distinct-fill (user ∷ users) (suc index) name pass h a d = (
  (λ used. ground (
    arith,
    d.0 used,
    password_of-fill users index name pass user.username,
    bytes_eq→eq name user.username,
    bytes_eq_self name,
  )),
  Distinct-fill users index name pass (ground arith) (ground arith) d.1,
)

Distinct-clear :
    (users : Table) (index : ℕ) (name : List ℕ)
    → find_user_index users name ≡ some index
    → Distinct users
    → Distinct (set users index cleared)
unfolding find_user_index password_of
Distinct-clear [] index name h d = d
Distinct-clear (user ∷ users) zero name h d = ((λ e. cc), d.1)
Distinct-clear (user ∷ users) (suc index) name h d = (
  (λ used. ground (arith, d.0 used, password_of-clear users index name user.username d.1)),
  Distinct-clear users index name (ground arith) d.1,
)

module _ (users : Table) (name pass : List ℕ) (n : Fits name) (p : Fits pass)
    (v : IsValid users) where
  add_valid-IsValid : IsValid (add_valid users name pass).1
  unfolding add_valid
  add_valid-IsValid = elim (Option-cases (find_user_index users name)) [
    | inr (i, e) ↦ rw (e, add_valid) v
    | inl absent ↦ elim (Option-cases (find_free_index users)) [
      | inl full ↦ rw (absent, full, add_valid) v
      | inr (i, free) ↦
          rw (absent, free, add_valid)
            (stored i free (find_user_index-password_of users name absent))
    ]
  ]
    where
      stored :
          (i : ℕ)
          → find_free_index users ≡ some i
          → password_of users name ≡ none
          → IsValid (set users i (filled name pass))
      stored i free absent =
          rw (take_all users_field_max name n.1, take_all users_field_max pass p.1)
            (record {
              places = length-set users i _ ∙ v.places;
              distinct = Distinct-fill users i name pass free absent v.distinct;
              fitting = Fitting-fill users i name pass n p v.fitting;
            })

remove_valid-IsValid :
    (users : Table) (name : List ℕ) → IsValid users → IsValid (remove_valid users name).1
unfolding remove_valid
remove_valid-IsValid users name v = elim (Option-cases (find_user_index users name)) [
  | inl e ↦ rw (e, remove_valid) v
  | inr (i, e) ↦
      rw (e, remove_valid)
        (record {
          places = length-set users i cleared ∙ v.places;
          distinct = Distinct-clear users i name e v.distinct;
          fitting = Fitting-clear users i v.fitting;
        })
]

-- A call either is refused for its arguments, or goes on with fields that fit.
pub users_add_cases :
    (users : Table) (name pass : List ℕ)
    → (users_add users (some name) (some pass) ≡ (invalid, users))
      ⊎ (Fits name
          × Fits pass
          × (users_add users (some name) (some pass) ≡ add_valid users name pass))
unfolding users_add
users_add_cases users name pass = ground arith

pub users_remove_cases :
    (users : Table) (name : List ℕ)
    → (users_remove users (some name) ≡ (invalid, users))
      ⊎ (Fits name × (users_remove users (some name) ≡ remove_valid users name))
unfolding users_remove
users_remove_cases users name = ground arith

-- `users_add` keeps the table valid, whatever it is given.
pub users_add-IsValid :
    (users : Table) (username password : Option (List ℕ))
    → IsValid users
    → IsValid (users_add users username password).1
unfolding users_add
users_add-IsValid users (some name) (some pass) v = elim (users_add_cases users name pass) [
  | inl e ↦ rw e v
  | inr (n, p, e) ↦ rw e (add_valid-IsValid users name pass n p v)
]
users_add-IsValid users (some name) none v = v
users_add-IsValid users none pass v = v

-- `users_remove` keeps the table valid, whatever it is given.
pub users_remove-IsValid :
    (users : Table) (username : Option (List ℕ))
    → IsValid users
    → IsValid (users_remove users username).1
unfolding users_remove
users_remove-IsValid users none v = v
users_remove-IsValid users (some name) v = elim (users_remove_cases users name) [
  | inl e ↦ rw e v
  | inr (n, e) ↦ rw e (remove_valid-IsValid users name v)
]

init_from-IsValid :
    (rounds : ℕ) (initial : List (Option (List ℕ) × Option (List ℕ))) (users : Table)
    → IsValid users
    → IsValid (init_from rounds initial users)
unfolding init_from
init_from-IsValid zero initial users v = v
init_from-IsValid (suc rounds) [] users v = v
init_from-IsValid (suc rounds) ((name, pass) ∷ initial) users v =
    init_from-IsValid rounds initial _ (users_add-IsValid users name pass v)

-- `users_init_from_args` builds a valid table from any list of names and passwords, also from one
-- with repeated, empty, missing or overlong entries.
pub users_init_from_args-IsValid :
    (initial : Option (List (Option (List ℕ) × Option (List ℕ))))
    → IsValid (users_init_from_args initial)
unfolding users_init_from_args password_of
users_init_from_args-IsValid none = record {
  places = refl;
  distinct = ground arith;
  fitting = ground arith;
}
users_init_from_args-IsValid (some initial) =
    init_from-IsValid users_max initial _
      (record { places = refl; distinct = ground arith; fitting = ground arith })
