-- ===== src/Client/Words.antt =====
-- The words of the client's command line as `management_prepare_response` reads them.
use protos_tpe_g.Prelude.{
  ℕ, suc, ◌-◌, ◌<◌, ◌≡◌, ◌≢◌, refl, ap, ap₂, sym, ◌∙◌, true, false, if◌then◌else◌, Option, none,
  some, List, [], ◌∷◌, ◌++◌, append_assoc, append-nil, length, length-append, get_elem?, leb, ltb,
  arith, Bool-cases, inl, inr,
}
use protos_tpe_g.Users.{Table}
use protos_tpe_g.Metrics.{Metrics}
use protos_tpe_g.Management.Line.{
  is_separator, is_end, line_of, skip, word, behind, strtok, next_token, token,
}
use protos_tpe_g.Management.Respond.{answer, respond}
use protos_tpe_g.Client.{build_words, build_command}

-- A word that the shell passed on and that the protocol can carry: not empty, no blank, no end of
-- a line.
abbrev pub Plain : List ℕ → Type 0
Plain [] = Unit
Plain (c ∷ s) = (is_separator c ≡ false) × (is_end c ≡ false) × Plain s

abbrev pub IsWord : List ℕ → Type 0
IsWord s = (s ≢ []) × Plain s

abbrev pub AllWords : List (List ℕ) → Type 0
AllWords [] = Unit
AllWords (s ∷ ss) = IsWord s × AllWords ss

unfoldable pub joined_behind : List (List ℕ) → List ℕ
joined_behind [] = []
joined_behind (s ∷ ss) = b' ' ∷ (s ++ joined_behind ss)

unfoldable pub joined : List (List ℕ) → List ℕ
joined [] = []
joined (s ∷ ss) = s ++ joined_behind ss

line_of-append : (s rest : List ℕ) → Plain s → line_of (s ++ rest) ≡ s ++ line_of rest
unfolding line_of
line_of-append [] rest h = refl
line_of-append (c ∷ s) rest (a, e, h) = rw (e, line_of) (ap (λ r. c ∷ r) (line_of-append s rest h))

line_of-joined_behind :
    (ss : List (List ℕ)) → AllWords ss → line_of (joined_behind ss ++ (10 ∷ [])) ≡ joined_behind ss
unfolding line_of joined_behind
line_of-joined_behind [] h = refl
line_of-joined_behind (s ∷ ss) ((n, p), h) =
    ap (λ r. b' ' ∷ r)
      (ap line_of (append_assoc s (joined_behind ss) (10 ∷ []))
        ∙ (line_of-append s (joined_behind ss ++ (10 ∷ [])) p
            ∙ ap (λ r. s ++ r) (line_of-joined_behind ss h)))

line_of-joined : (ss : List (List ℕ)) → AllWords ss → line_of (joined ss ++ (10 ∷ [])) ≡ joined ss
unfolding joined line_of
line_of-joined [] h = refl
line_of-joined (s ∷ ss) ((n, p), h) =
    ap line_of (append_assoc s (joined_behind ss) (10 ∷ []))
    ∙ (line_of-append s (joined_behind ss ++ (10 ∷ [])) p
        ∙ ap (λ r. s ++ r) (line_of-joined_behind ss h))

word-append : (s : List ℕ) (ss : List (List ℕ)) → Plain s → word (s ++ joined_behind ss) ≡ s
unfolding word joined_behind
word-append [] [] h = refl
word-append [] (t ∷ ss) h = refl
word-append (c ∷ s) ss (a, e, h) = rw (a, word) (ap (λ r. c ∷ r) (word-append s ss h))

behind-append :
    (s : List ℕ) (ss : List (List ℕ)) → Plain s → behind (s ++ joined_behind ss) ≡ joined ss
unfolding behind joined_behind joined
behind-append [] [] h = refl
behind-append [] (t ∷ ss) h = refl
behind-append (c ∷ s) ss (a, e, h) = rw (a, behind) (behind-append s ss h)

-- what `strtok` makes of joined words
abbrev pub tokens_of : List (List ℕ) → Option (List ℕ × List ℕ)
tokens_of [] = none
tokens_of (s ∷ ss) = some (s, joined ss)

abbrev pub tl : List (List ℕ) → List (List ℕ)
tl [] = []
tl (s ∷ ss) = ss

strtok-joined : (ss : List (List ℕ)) → AllWords ss → strtok (joined ss) ≡ tokens_of ss
unfolding strtok joined skip
strtok-joined [] h = refl
strtok-joined ([] ∷ ss) ((n, p), h) = absurd (n refl)
strtok-joined ((c ∷ s) ∷ ss) ((n, (a, e, p)), h) =
    rw (a, skip)
      (ap₂ (λ t r. some (t, r)) (word-append (c ∷ s) ss (a, e, p))
        (behind-append (c ∷ s) ss (a, e, p)))

next_token-joined :
    (ss : List (List ℕ)) → AllWords ss → next_token (tokens_of ss) ≡ tokens_of (tl ss)
next_token-joined [] h = refl
next_token-joined (s ∷ ss) (i, h) = strtok-joined ss h

AllWords-tl : (ss : List (List ℕ)) → AllWords ss → AllWords (tl ss)
AllWords-tl [] h = h
AllWords-tl (s ∷ ss) (i, h) = h

token-get_elem? : (ss : List (List ℕ)) → token (tokens_of ss) ≡ get_elem? ss 0
token-get_elem? [] = refl
token-get_elem? (s ∷ ss) = refl

get_elem?-tl : (ss : List (List ℕ)) (i : ℕ) → get_elem? (tl ss) i ≡ get_elem? ss (suc i)
get_elem?-tl [] i = refl
get_elem?-tl (s ∷ ss) i = refl

token-tl : (ss : List (List ℕ)) → token (tokens_of (tl ss)) ≡ get_elem? ss 1
token-tl ss = token-get_elem? (tl ss) ∙ get_elem?-tl ss 0

-- A line of words is answered as the command that its first word is, with the words behind it as
-- the arguments.
pub respond-joined :
    (users : Table) (metrics : Metrics) (ss : List (List ℕ))
    → AllWords ss
    → respond users metrics (joined ss ++ (10 ∷ []))
      ≡ answer users metrics (get_elem? ss 0) (get_elem? ss 1) (get_elem? ss 2) (get_elem? ss 3)
unfolding respond
respond-joined users metrics ss h =
    let e0 : strtok (line_of (joined ss ++ (10 ∷ []))) ≡ tokens_of ss =
      ap strtok (line_of-joined ss h) ∙ strtok-joined ss h in
    let e1 = ap next_token e0 ∙ next_token-joined ss h in
    let e2 = ap next_token e1 ∙ next_token-joined (tl ss) (AllWords-tl ss h) in
    let e3 =
      ap next_token e2 ∙ next_token-joined (tl (tl ss)) (AllWords-tl (tl ss) (AllWords-tl ss h)) in
    let q2 = ap token e2 ∙ (token-tl (tl ss) ∙ get_elem?-tl ss 1) in
    let q3 = ap token e3 ∙ (token-tl (tl (tl ss)) ∙ (get_elem?-tl (tl ss) 1 ∙ get_elem?-tl ss 2)) in
    cc (ap token e0 ∙ token-get_elem? ss, ap token e1 ∙ token-tl ss, q2, q3)

module _ (size : ℕ) where
  build_words-joined_behind :
      (ss : List (List ℕ)) (buffer : List ℕ)
      → length buffer < size
      → build_words size (b' ' ∷ []) buffer ss ≡ (
          if ltb (length (buffer ++ joined_behind ss)) size
          then some (buffer ++ joined_behind ss)
          else none)
  unfolding build_words joined_behind
  build_words-joined_behind [] buffer h =
      let fits : ltb (length (buffer ++ [])) size ≡ true =
        ground (arith, length-append buffer []) in
      rw fits (ap some (sym (append-nil buffer)))
  build_words-joined_behind (s ∷ ss) buffer h =
      elim (Bool-cases (leb (size - length buffer) (suc (length s)))) [
        | inl long ↦
            let out : ltb (length (buffer ++ joined_behind (s ∷ ss))) size ≡ false = ground (
              arith,
              length-append buffer (joined_behind (s ∷ ss)),
              length-append s (joined_behind ss),
            ) in
            rw (long, out) refl
        | inr short ↦
            let same : (buffer ++ (b' ' ∷ s)) ++ joined_behind ss
                ≡ buffer ++ joined_behind (s ∷ ss) =
              append_assoc buffer (b' ' ∷ s) (joined_behind ss) in
            rw short (
              build_words-joined_behind ss (buffer ++ (b' ' ∷ s))
                (ground (arith, length-append buffer (b' ' ∷ s)))
              ∙ ap (λ t. if ltb (length t) size then some t else none) same)
      ]

  -- The command is the words with a blank between two, if that fits into the buffer with its NUL.
  pub build_command-joined :
      (s : List ℕ) (ss : List (List ℕ))
      → 0 < size
      → build_command size (s ∷ ss)
        ≡ (if ltb (length (joined (s ∷ ss))) size then some (joined (s ∷ ss)) else none)
  unfolding build_command build_words joined
  build_command-joined s ss h = elim (Bool-cases (leb (size - 0) (length s))) [
    | inl long ↦
        let out : ltb (length (s ++ joined_behind ss)) size ≡ false =
          ground (arith, length-append s (joined_behind ss)) in
        rw (long, out) refl
    | inr short ↦ rw short (build_words-joined_behind ss s (ground arith))
  ]
