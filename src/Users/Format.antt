-- ===== src/Users/Format.antt =====
-- src/server/users.c: the text that `users_format_list` and `users_result_name` give.
use protos_tpe_g.Prelude.{
  ℕ, ◌+◌, ◌-◌, ◌<◌, ◌≡◌, ap, sym, ◌∙◌, true, false, not, if◌then◌else◌, List, [], ◌∷◌, ◌++◌,
  append_assoc, append-nil, arith, ltb, length, length-append, length-take, take_all, Bool-cases,
  inl, inr, codes, decimal, printed, take-append_past, take-append_within,
}
use protos_tpe_g.Users.{
  ManagedUser, Table, Result, ok, exists, not_found, full, invalid, users_count,
}

-- `"users_count=%zu\n"`
abbrev pub count_line : ℕ → List ℕ
count_line n = codes "users_count=" ++ (decimal n ++ (10 ∷ []))

-- `"user=%s\n"`
abbrev pub user_line : ManagedUser → List ℕ
user_line user = codes "user=" ++ (user.username ++ (10 ∷ []))

-- one round of the loop: the text so far, and `written`
abbrev pub format_user : ℕ → ManagedUser → List ℕ → ℕ → List ℕ × ℕ
format_user size user out written =
    if not user.in_use
    then (out, written)
    else (out ++ printed (size - written) (user_line user), written + length (user_line user))

-- the loop of `users_format_list`
unfoldable pub format_from : ℕ → List ℕ → ℕ → Table → List ℕ
format_from size out written [] = out
format_from size out written (user ∷ users) = elim (ltb written size) [
  | false ↦ out
  | true ↦
      format_from size (format_user size user out written).0 (format_user size user out written).1
        users
]

-- `users_format_list`, with a buffer of `size` bytes: the text that it leaves
unfoldable pub users_format_list : ℕ → Table → List ℕ
unfolding format_from
users_format_list size users =
    let head = count_line (users_count users) in
    format_from size (printed size head) (length head) users

-- `users_result_name`
unfoldable pub users_result_name : Result → List ℕ
users_result_name ok = codes "ok"
users_result_name exists = codes "exists"
users_result_name not_found = codes "not_found"
users_result_name full = codes "full"
users_result_name invalid = codes "invalid"

-- The lines of the users in use, in the order of the table, however long.
abbrev pub user_lines : Table → List ℕ
user_lines [] = []
user_lines (user ∷ users) = (if user.in_use then user_line user else []) ++ user_lines users

-- A further line, cut at the end of the buffer.
printed-line :
    (size : ℕ) (text line : List ℕ)
    → length text < size
    → printed size text ++ printed (size - length text) line ≡ printed size (text ++ line)
printed-line size text line h =
    ap (λ r. r ++ printed (size - length text) line) (take_all (size - 1) text (omega arith))
    ∙ sym (take-append_past text line (size - 1) (size - length text - 1) (omega arith))

format_from-printed :
    (size : ℕ) (text : List ℕ) (users : Table)
    → format_from size (printed size text) (length text) users
      ≡ printed size (text ++ user_lines users)
unfolding format_from
format_from-printed size text [] = ap (λ t. printed size t) (sym (append-nil text))
format_from-printed size text (user ∷ users) = elim (Bool-cases (ltb (length text) size)) [
  | inr over ↦ rw (over, format_from) (sym (take-append_within text _ (size - 1) (ground arith)))
  | inl fits ↦ elim (Bool-cases user.in_use) [
    | inr unused ↦ rw (fits, unused, format_from) (format_from-printed size text users)
    | inl used ↦
        rw (fits, used, format_from)
          (let line = user_line user in
            ap (λ r. format_from size r (length text + length line) users)
              (printed-line size text line (ground arith))
            ∙ (ap (λ k. format_from size (printed size (text ++ line)) k users)
                  (sym (length-append text line))
                ∙ (format_from-printed size (text ++ line) users
                    ∙ ap (λ t. printed size t) (append_assoc text line (user_lines users)))))
  ]
]

-- Into a buffer of any size above 0, `users_format_list` writes the count of the users and a line
-- for each user in use, in the order of the table, cut where the buffer ends: the text is always
-- shorter than the buffer.
pub users_format_list-printed :
    (size : ℕ) (users : Table)
    → 0 < size
    → (users_format_list size users
        ≡ printed size (count_line (users_count users) ++ user_lines users))
      × (length (users_format_list size users) < size)
unfolding users_format_list
users_format_list-printed size users h =
    let text = count_line (users_count users) in
    let same = format_from-printed size text users in
    (same, omega (arith, ap length same, length-take (size - 1) (text ++ user_lines users)))
