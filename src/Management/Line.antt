-- ===== src/Management/Line.antt =====
-- The line of a request and its words: `strcspn` and `strtok` as `management_prepare_response`
-- calls them.
use protos_tpe_g.Prelude.{ℕ, ◌==◌, Bool, ◌||◌, if◌then◌else◌, Option, none, some, List, [], ◌∷◌}

-- `" \t"`
abbrev pub is_separator : ℕ → Bool
is_separator c = c == b' ' || c == 9

-- where the line ends: `'\r'`, `'\n'`, or the NUL behind the string
abbrev pub is_end : ℕ → Bool
is_end c = c == 0 || (c == 13 || c == 10)

-- the string once a NUL is put at its first `'\r'` or `'\n'`
unfoldable pub line_of : List ℕ → List ℕ
line_of [] = []
line_of (c ∷ s) = if is_end c then [] else c ∷ line_of s

-- `strspn` of the separators
unfoldable pub skip : List ℕ → List ℕ
skip [] = []
skip (c ∷ s) = if is_separator c then skip s else c ∷ s

-- the bytes before the next separator
unfoldable pub word : List ℕ → List ℕ
word [] = []
word (c ∷ s) = if is_separator c then [] else c ∷ word s

-- the bytes behind it
unfoldable pub behind : List ℕ → List ℕ
behind [] = []
behind (c ∷ s) = if is_separator c then s else behind s

abbrev pub token_at : List ℕ → Option (List ℕ × List ℕ)
token_at [] = none
token_at (c ∷ s) = some (word (c ∷ s), behind (c ∷ s))

-- `strtok`: the token, and the string that the next call goes on with
unfoldable pub strtok : List ℕ → Option (List ℕ × List ℕ)
unfolding skip
strtok s = token_at (skip s)

-- `strtok(NULL, ...)`
abbrev pub next_token : Option (List ℕ × List ℕ) → Option (List ℕ × List ℕ)
next_token none = none
next_token (some (token, rest)) = strtok rest

abbrev pub token : Option (List ℕ × List ℕ) → Option (List ℕ)
token none = none
token (some (t, rest)) = some t
