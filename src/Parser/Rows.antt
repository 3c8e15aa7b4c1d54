-- ===== src/Parser/Rows.antt =====
-- The states of a comparison and the steps of `parser_feed` on them.
use protos_tpe_g.Prelude.{
  ℕ, zero, suc, ◌+◌, ◌≤◌, ◌<◌, ◌≡◌, refl, ap, ap₂, sym, ◌∙◌, ◌==◌, Bool, true, false, Bool-cases,
  inl, inr, ◌&&◌, ◌||◌, if◌then◌else◌, Option, none, some, List, [], ◌∷◌, length, get_elem?,
  get_elem?-some, leb, ltb, take, drop, tolower, toupper, strcasecmp_eq, arith,
}
use protos_tpe_g.Parser.{
  Parser, Transition, Action, without_next, first_match, feed_at, parser_feed, string_cmp_mayeq,
  string_cmp_eq, string_cmp_neq, eq, neq, may_eq, otherwise, compare_row, compare_rows, feed_all,
}

abbrev pub is_ascii : List ℕ → Bool
is_ascii [] = true
is_ascii (c ∷ s) = ltb c 128 && is_ascii s

-- a byte below 128 of the word, and a byte that it equals but for the case
abbrev pub same_letter : ℕ → ℕ → Bool
same_letter x c = ltb x 128 && tolower x == tolower c

-- as `strcasecmp_eq`, for a word whose bytes are all below 128
abbrev pub ascii_eq : List ℕ → List ℕ → Bool
ascii_eq s t = is_ascii s && strcasecmp_eq s t

-- The event that the comparison of `t` with `s` is to give: equal but for the case, a beginning of
-- it, or neither. A word, or a beginning of it, with a byte from 128 on equals nothing.
unfoldable pub verdict : List ℕ → List ℕ → ℕ
verdict s t =
    if ascii_eq s t
    then string_cmp_eq
    else if ltb (length t) (length s) && ascii_eq (take (length t) s) t
    then string_cmp_mayeq
    else string_cmp_neq

case_lem : (c x : ℕ) → (c == tolower x || c == toupper x) ≡ (tolower x == tolower c)
unfolding tolower toupper
case_lem c x = ground arith

-- a parser of a comparison with `n` bytes
pub record Compares (n i : ℕ) (s : List ℕ) (p : Parser) : Type 0 where
  pub bytes : length p.classes ≡ 256
  pub at : p.state ≡ i
  pub table : drop i p.def.states ≡ compare_rows n i s
  pub rest : i + length s ≡ n

-- The comparison has failed: the parser is in its last state.
pub record Failed (n : ℕ) (p : Parser) : Type 0 where
  pub bytes : length p.classes ≡ 256
  pub table : drop p.state p.def.states ≡ (otherwise n ∷ []) ∷ []
  pub at : p.state ≡ suc n
  pub event : p.e1.type ≡ string_cmp_neq

get_elem?-drop {ℓ} : {A : Type ℓ} (xs : List A) (i : ℕ) → get_elem? xs i ≡ get_elem? (drop i xs) 0
get_elem?-drop xs zero = refl
get_elem?-drop [] (suc i) = refl
get_elem?-drop (x ∷ xs) (suc i) = get_elem?-drop xs i

-- A parser's step, once its state's transitions are known.
pub parser_feed-first_match :
    (p : Parser) (c : ℕ) (row : List Transition) (rows : List (List Transition))
    → length p.classes ≡ 256
    → c < 256
    → drop p.state p.def.states ≡ row ∷ rows
    → (type : ℕ) × (parser_feed p c
        ≡ some
            (first_match row type c (record p { e1 = without_next p.e1; e2 = without_next p.e2 })))
unfolding parser_feed
parser_feed-first_match p c row rows l h e =
    let (type, t) = get_elem?-some p.classes c (omega arith) in
    let r : get_elem? p.def.states p.state ≡ some row =
      get_elem?-drop p.def.states p.state ∙ ap (λ x. get_elem? x 0) e in
    (type, ap₂ (λ a b. feed_at a b c p) t r)

small : (x : ℕ) → x < 256 → (tolower x ≤ 255) × (toupper x ≤ 255)
unfolding tolower toupper
small x h = (ground arith, ground arith)

abbrev to_state : ℕ → Action → ℕ → Parser → Parser
to_state i act c p = record p { e1 = act p.e1 c; state = i }

if_or {ℓ} :
    {A : Type ℓ} (a b : Bool) (x y : A)
    → (if a then x else if b then x else y) ≡ (if a || b then x else y)
if_or true b x y = refl
if_or false b x y = refl

letter-compare_row :
    (n i x type c : ℕ) (p : Parser)
    → ltb x 128 ≡ true
    → first_match (compare_row n i x) type c p ≡ (
        if tolower x == tolower c
        then to_state (if suc i == n then n else suc i) (if suc i == n then eq else may_eq) c p
        else to_state (suc n) neq c p)
unfolding first_match
letter-compare_row n i x type c p h =
    let (l, u) = small x (ground arith) in
    let l' : leb (tolower x) 255 ≡ true = ground arith in
    let u' : leb (toupper x) 255 ≡ true = ground arith in
    let yes = to_state (if suc i == n then n else suc i) (if suc i == n then eq else may_eq) c p in
    let no = to_state (suc n) neq c p in
    rw (h, l', u')
      (if_or (c == tolower x) (c == toupper x) yes no
        ∙ ap (λ b. if b then yes else no) (case_lem c x))

pub first_match-compare_row :
    (n i x type c : ℕ) (p : Parser)
    → first_match (compare_row n i x) type c p ≡ (
        if same_letter x c
        then to_state (if suc i == n then n else suc i) (if suc i == n then eq else may_eq) c p
        else to_state (suc n) neq c p)
unfolding first_match
first_match-compare_row n i x type c p = elim (Bool-cases (ltb x 128)) [
  | inl e ↦ letter-compare_row n i x type c p e ∙ rw e refl
  | inr e ↦ rw e refl
]

abbrev pub AllBytes : List ℕ → Type 0
AllBytes [] = Unit
AllBytes (c ∷ s) = (c < 256) × AllBytes s

abbrev pub type_after : Option Parser → Option ℕ
type_after none = none
type_after (some p) = some p.e1.type

Failed-step :
    (n c : ℕ) (p : Parser)
    → Failed n p
    → c < 256
    → (q : Parser) × (parser_feed p c ≡ some q) × Failed n q
unfolding first_match
Failed-step n c p f h =
    let (type, e) = parser_feed-first_match p c (otherwise n ∷ []) [] f.bytes h f.table in
    (
      _,
      e,
      record {
        bytes = f.bytes;
        table = ap (λ i. drop i p.def.states) (sym f.at) ∙ f.table;
        at = refl;
        event = refl;
      },
    )

pub Failed-feed_all :
    (t : List ℕ) (n : ℕ) (p : Parser)
    → Failed n p
    → AllBytes t
    → type_after (feed_all t (some p)) ≡ some string_cmp_neq
unfolding feed_all
Failed-feed_all [] n p f h = ap some f.event
Failed-feed_all (c ∷ t) n p f (h, hs) =
    let (q, e, g) = Failed-step n c p f h in
    ap (λ o. type_after (feed_all t o)) e ∙ Failed-feed_all t n q g hs
