-- ===== src/Parser.antt =====
-- src/utils/parser.c: the engine that runs a table of transitions over bytes, and
-- src/utils/parser_utils.c, which makes the table that compares with a word.
pub mod Rows
pub mod Compare
pub mod Running
mod Tests
use Prim.Native.Nat.{bit_and}
use protos_tpe_g.Prelude.{
  ℕ, zero, suc, ◌+◌, ◌==◌, Bool, true, false, not, if◌then◌else◌, Option, none, some, List, [], ◌∷◌,
  ◌++◌, leb, ltb, length, get_elem?, replicate, tolower, toupper, codes,
}

-- `struct parser_event`; `data` is `bytes` here; `next` is `NULL` or the second event of the parser.
pub record Event : Type 0 where
  pub type : ℕ
  pub bytes : List ℕ
  pub n : ℕ
  pub has_next : Bool

-- an action, on the event and the byte
abbrev pub Action : Type 0
Action = Event → ℕ → Event

-- `struct parser_state_transition`; a negative `when`, which no byte equals, is `none`.
pub record Transition : Type 0 where
  pub when : Option ℕ
  pub dest : ℕ
  pub act1 : Action
  pub act2 : Option Action

-- `ANY`
abbrev pub any : ℕ
any = 512

-- `struct parser_definition`: the transitions of each state, `states_n` of them
pub record Definition : Type 0 where
  pub states_count : ℕ
  pub states : List (List Transition)
  pub start_state : ℕ

-- `struct parser`
pub record Parser : Type 0 where
  pub classes : List ℕ
  pub def : Definition
  pub state : ℕ
  pub e1 : Event
  pub e2 : Event

abbrev pub no_event : Event
no_event = record { type = 0; bytes = []; n = 0; has_next = false }

-- `parser_init`, when `malloc` gives memory
unfoldable pub parser_init : List ℕ → Definition → Parser
parser_init classes def = record {
  classes = classes;
  def = def;
  state = def.start_state;
  e1 = no_event;
  e2 = no_event;
}

-- `parser_reset`
unfoldable pub parser_reset : Parser → Parser
parser_reset p = record p { state = p.def.start_state }

-- the condition of a transition, for a byte and its class
abbrev pub matches : Option ℕ → ℕ → ℕ → Bool
matches none type c = false
matches (some when) type c =
    if leb when 255 then c == when else if when == any then true else not (bit_and type when == 0)

abbrev pub without_next : Event → Event
without_next e = record e { has_next = false }

-- `act2` and what it needs of the parser
abbrev pub act_twice : Option Action → ℕ → Parser → Parser
act_twice none c p = p
act_twice (some act) c p = record p { e1 = record p.e1 { has_next = true }; e2 = act p.e2 c }

-- what a matching transition does
abbrev pub fire : Transition → ℕ → Parser → Parser
fire t c p = record (act_twice t.act2 c (record p { e1 = t.act1 p.e1 c })) { state = t.dest }

-- the loop over the transitions of the state
unfoldable pub first_match : List Transition → ℕ → ℕ → Parser → Parser
first_match [] type c p = p
first_match (t ∷ ts) type c p =
    let rest = first_match ts type c p in if matches t.when type c then fire t c p else rest

abbrev pub feed_at : Option ℕ → Option (List Transition) → ℕ → Parser → Option Parser
feed_at (some type) (some ts) c p =
    some (first_match ts type c (record p { e1 = without_next p.e1; e2 = without_next p.e2 }))
feed_at _ _ c p = none

-- `parser_feed`; the event returned is `e1`. `none` is a read behind the end of an array.
unfoldable pub parser_feed : Parser → ℕ → Option Parser
parser_feed p c = feed_at (get_elem? p.classes c) (get_elem? p.def.states p.state) c p

-- `parser_no_classes`
abbrev pub parser_no_classes : List ℕ
parser_no_classes = replicate 255 0

abbrev pub string_cmp_mayeq : ℕ
string_cmp_mayeq = 0

abbrev pub string_cmp_eq : ℕ
string_cmp_eq = 1

abbrev pub string_cmp_neq : ℕ
string_cmp_neq = 2

-- `parser_utils_strcmpi_event`, for the values of the enumeration
unfoldable pub parser_utils_strcmpi_event : ℕ → List ℕ
parser_utils_strcmpi_event type =
    if type == string_cmp_mayeq
    then codes "wait(c)"
    else if type == string_cmp_eq
    then codes "eq(c)"
    else codes "neq(c)"

abbrev pub set_event : ℕ → Action
set_event type e c = record e { type = type; n = 1; bytes = c ∷ [] }

abbrev pub may_eq : Action
may_eq = set_event string_cmp_mayeq

abbrev pub eq : Action
eq = set_event string_cmp_eq

abbrev pub neq : Action
neq = set_event string_cmp_neq

abbrev pub transition : Option ℕ → ℕ → Action → Transition
transition when dest act = record { when = when; dest = dest; act1 = act; act2 = none }

-- the transition to the state `n + 1` of a failed comparison
abbrev pub otherwise : ℕ → Transition
otherwise n = transition (some any) (suc n) neq

-- `tolower` or `toupper` of a `char`, which is signed: a byte from 128 on is negative, and stays so.
abbrev pub char_case : (ℕ → ℕ) → ℕ → Option ℕ
char_case to c = if ltb c 128 then some (to c) else none

-- the three transitions at the byte `c` with index `i` of `n`
abbrev pub compare_row : ℕ → ℕ → ℕ → List Transition
compare_row n i c =
    let dest = if suc i == n then n else suc i in
    let act = if suc i == n then eq else may_eq in
    transition (char_case tolower c) dest act
    ∷ (transition (char_case toupper c) dest act ∷ (otherwise n ∷ []))

unfoldable pub compare_rows : ℕ → ℕ → List ℕ → List (List Transition)
compare_rows n i [] = (otherwise n ∷ []) ∷ ((otherwise n ∷ []) ∷ [])
compare_rows n i (c ∷ s) = compare_row n i c ∷ compare_rows n (suc i) s

-- `parser_utils_strcmpi`, by whether `calloc` gave memory
unfoldable pub parser_utils_strcmpi : Bool → List ℕ → Definition
parser_utils_strcmpi false s = record { states_count = 0; states = []; start_state = 0 }
parser_utils_strcmpi true s = record {
  states_count = length s + 2;
  states = compare_rows (length s) 0 s;
  start_state = 0;
}

abbrev pub feed_some : ℕ → Option Parser → Option Parser
feed_some c none = none
feed_some c (some p) = parser_feed p c

-- a parser fed with bytes, one after the other
unfoldable pub feed_all : List ℕ → Option Parser → Option Parser
feed_all [] p = p
feed_all (c ∷ cs) p = feed_all cs (feed_some c p)
