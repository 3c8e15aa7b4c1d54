-- ===== src/Users/Refine.antt =====
-- The operations of src/server/users.c on the table as a map from names to passwords.
use protos_tpe_g.Prelude.{
  ℕ, suc, ◌≤◌, ◌≡◌, ◌↔◌, refl, sym, ◌∙◌, Bool, true, false, ◌&&◌, if◌then◌else◌, Option, none, some,
  List, [], ◌∷◌, length, length-take, ap, set, take_all, bytes_eq, bytes_eq→eq, bytes_eq_self,
  memcmp_eq, arith, inl, inr, Bool-cases, Option-cases, ltb, take,
}
use protos_tpe_g.Users.{
  ManagedUser, Table, Result, ok, exists, not_found, full, is_user, find_user_index,
  find_free_index, users_count, filled, add_valid, remove_valid, users_add, users_remove, users_max,
  users_field_max, users_credentials_are_valid, matches,
}
use protos_tpe_g.Users.View.{
  password_of, Distinct, password_of-fill, password_of-clear, find_user_index-password_of,
  find_user_index-get, find_free_index-none, find_free_index-some, users_count-fill,
  users_count-clear,
}
use protos_tpe_g.Users.Invariant.{IsValid, Fits}

abbrev pub is_ok : Result → Bool
is_ok ok = true
is_ok _ = false

-- What the map and the number of entries say of a call.
abbrev pub add_result : Option (List ℕ) → ℕ → Result
add_result (some _) n = exists
add_result none n = if ltb n users_max then ok else full

abbrev pub remove_result : Option (List ℕ) → Result
remove_result none = not_found
remove_result (some _) = ok

-- The result, and the table afterwards as a map, with its size.
pub record Added (users : Table) (name pass : List ℕ) (out : Result × Table) : Type 0 where
  pub result : out.0 ≡ add_result (password_of users name) (users_count users)
  pub entries :
      (v : List ℕ)
      → password_of out.1 v
        ≡ (if is_ok out.0 && bytes_eq name v then some pass else password_of users v)
  pub count :
      users_count out.1 ≡ (if is_ok out.0 then suc (users_count users) else users_count users)

pub record Removed (users : Table) (name : List ℕ) (out : Result × Table) : Type 0 where
  pub result : out.0 ≡ remove_result (password_of users name)
  pub entries :
      (v : List ℕ)
      → password_of out.1 v ≡ (if is_ok out.0 && bytes_eq name v then none else password_of users v)
  pub count :
      (if is_ok out.0 then suc (users_count out.1) else users_count out.1) ≡ users_count users

module _ (users : Table) (name pass : List ℕ) (n : Fits name) (p : Fits pass)
    (v : IsValid users) where
  add_valid-Added : Added users name pass (add_valid users name pass)
  unfolding add_valid
  add_valid-Added = elim (Option-cases (find_user_index users name)) [
    | inr (i, e) ↦ rw (e, add_valid) (present (find_user_index-get users i name e))
    | inl absent ↦ elim (Option-cases (find_free_index users)) [
      | inl none_free ↦
          rw (absent, none_free, add_valid)
            (no_place (find_free_index-none users none_free)
              (find_user_index-password_of users name absent))
      | inr (i, free) ↦
          rw (absent, free, add_valid)
            (stored i free (find_user_index-password_of users name absent))
    ]
  ]
    where
      present :
          (pass' : List ℕ) × (password_of users name ≡ some pass')
          → Added users name pass (exists, users)
      present (pass', e) = record { result = rw e; entries = λ v. refl; count = refl }

      no_place :
          users_count users ≡ length users
          → password_of users name ≡ none
          → Added users name pass (full, users)
      no_place e absent = record {
        result = ground (arith, v.places);
        entries = λ v. refl;
        count = refl;
      }

      stored :
          (i : ℕ)
          → find_free_index users ≡ some i
          → password_of users name ≡ none
          → Added users name pass (ok, set users i (filled name pass))
      stored i free absent =
          rw (take_all users_field_max name n.1, take_all users_field_max pass p.1)
            (record {
              result = ground (arith, v.places, find_free_index-some users i free);
              entries = λ w. password_of-fill users i name pass w free absent;
              count = users_count-fill users i name pass free;
            })

remove_valid-Removed :
    (users : Table) (name : List ℕ) → IsValid users → Removed users name (remove_valid users name)
unfolding remove_valid
remove_valid-Removed users name v = elim (Option-cases (find_user_index users name)) [
  | inl e ↦
      rw (e, remove_valid)
        (record {
          result = rw (find_user_index-password_of users name e);
          entries = λ w. refl;
          count = refl;
        })
  | inr (i, e) ↦
      rw (e, remove_valid)
        (record {
          result = rw ((find_user_index-get users i name e).1);
          entries = λ w. password_of-clear users i name w v.distinct e;
          count = users_count-clear users i name e;
        })
]

add_lem :
    (users : Table) (name pass : List ℕ)
    → Fits name
    → Fits pass
    → users_add users (some name) (some pass) ≡ add_valid users name pass
unfolding users_add
add_lem users name pass n p = ground arith

remove_lem :
    (users : Table) (name : List ℕ)
    → Fits name
    → users_remove users (some name) ≡ remove_valid users name
unfolding users_remove
remove_lem users name n = ground arith

-- With a name and a password of 1 to 255 bytes, `users_add` on a valid table answers `exists` if
-- the name has an entry, else `full` if there are ten, else `ok`; it adds exactly that entry on
-- `ok`, and changes no entry otherwise.
pub users_add-Added :
    (users : Table) (name pass : List ℕ)
    → IsValid users
    → Fits name
    → Fits pass
    → Added users name pass (users_add users (some name) (some pass))
users_add-Added users name pass v n p =
    rw (add_lem users name pass n p) (add_valid-Added users name pass n p v)

-- With a name of 1 to 255 bytes, `users_remove` on a valid table answers `ok` exactly if the name
-- has an entry, takes exactly that entry out on `ok`, and changes none otherwise.
pub users_remove-Removed :
    (users : Table) (name : List ℕ)
    → IsValid users
    → Fits name
    → Removed users name (users_remove users (some name))
users_remove-Removed users name v n =
    rw (remove_lem users name n) (remove_valid-Removed users name v)

memcmp_eq_whole : (a b : List ℕ) (n : ℕ) → length a ≡ n → (memcmp_eq a b n ≡ true) ↔ (a ≡ take n b)
memcmp_eq_whole a b n e = (
  (λ h. sym (take_all n a (omega arith)) ∙ bytes_eq→eq _ _ h),
  (λ h. rw (take_all n a (omega arith), ← h) (bytes_eq_self a)),
)

matches_fields :
    (u p : List ℕ) (ul pl : ℕ) (user : ManagedUser)
    → matches user u ul p pl ≡ true
    → (user.username ≡ take ul u) × (user.password ≡ take pl p)
matches_fields u p ul pl user h = (
  (memcmp_eq_whole user.username u ul (ground arith)).0 (ground arith),
  (memcmp_eq_whole user.password p pl (ground arith)).0 (ground arith),
)

-- Credentials that are accepted are those of an entry.
pub credentials_sound :
    (u p : List ℕ) (ul pl : ℕ) (users : Table)
    → Distinct users
    → users_credentials_are_valid users u ul p pl ≡ true
    → password_of users (take ul u) ≡ some (take pl p)
unfolding users_credentials_are_valid password_of
credentials_sound u p ul pl [] d h = cc
credentials_sound u p ul pl (user ∷ users) d h =
    elim (Bool-cases (user.in_use && matches user u ul p pl)) [
      | inl here ↦
          ground (arith, matches_fields u p ul pl user (ground arith), bytes_eq_self (take ul u))
      | inr no_match ↦
          ground (
            arith,
            credentials_sound u p ul pl users d.1,
            d.0,
            bytes_eq→eq user.username (take ul u),
          )
    ]

module _ (u p : List ℕ) (ul pl : ℕ) (hu : ul ≤ length u) (hp : pl ≤ length p) where
  matches_iff :
      (user : ManagedUser)
      → (matches user u ul p pl ≡ true)
        ↔ ((user.username ≡ take ul u) × (user.password ≡ take pl p))
  matches_iff user = (
    (λ h. matches_fields u p ul pl user h),
    (λ h.
        let a : length user.username ≡ ul = omega (arith, ap length h.0, length-take ul u) in
        let b : length user.password ≡ pl = omega (arith, ap length h.1, length-take pl p) in
        ground (
          arith,
          (memcmp_eq_whole user.username u ul a).1 h.0,
          (memcmp_eq_whole user.password p pl b).1 h.1,
        )),
  )

  complete :
      (users : Table)
      → password_of users (take ul u) ≡ some (take pl p)
      → users_credentials_are_valid users u ul p pl ≡ true
  unfolding users_credentials_are_valid password_of
  complete [] h = cc
  complete (user ∷ users) h = elim (Bool-cases (is_user user (take ul u))) [
    | inl here ↦ ground (
      arith,
      (matches_iff user).1 (bytes_eq→eq user.username (take ul u) (ground arith), ground arith),
    )
    | inr other ↦ ground (arith, complete users)
  ]

  -- Credentials are accepted exactly if the map gives the name that password. The buffers hold at
  -- least the bytes that the lengths state.
  pub credentials_iff :
      (users : Table)
      → IsValid users
      → (users_credentials_are_valid users u ul p pl ≡ true)
        ↔ (password_of users (take ul u) ≡ some (take pl p))
  credentials_iff users v = (credentials_sound u p ul pl users v.distinct, complete users)
