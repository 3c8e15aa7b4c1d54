-- ===== src/Parser/Running.antt =====
-- The parser over any bytes: the arrays it reads and the state it is in.
use protos_tpe_g.Prelude.{
  ℕ, zero, suc, ◌<◌, ◌≡◌, refl, ap, ap₂, sym, subst, ◌∙◌, if_lem, Option, none, some, List, [], ◌∷◌,
  length, get_elem?, get_elem?-some, arith,
}
use protos_tpe_g.Parser.{
  Parser, Definition, Transition, Action, matches, without_next, first_match, fire, act_twice,
  feed_at, parser_feed, feed_all,
}
use protos_tpe_g.Parser.Rows.{AllBytes}

abbrev pub Leads : ℕ → List Transition → Type 0
Leads n [] = Unit
Leads n (t ∷ ts) = (t.dest < n) × Leads n ts

abbrev pub AllLead : ℕ → List (List Transition) → Type 0
AllLead n [] = Unit
AllLead n (ts ∷ rows) = Leads n ts × AllLead n rows

-- Every byte has a class, and every state that can be reached has its transitions.
pub record IsValid (p : Parser) : Type 0 where
  pub classes : length p.classes ≡ 256
  pub leads : AllLead (length p.def.states) p.def.states
  pub at : p.state < length p.def.states
  pub start : p.def.start_state < length p.def.states

AllLead-get_elem? :
    (n : ℕ) (rows : List (List Transition)) (i : ℕ) (ts : List Transition)
    → AllLead n rows
    → get_elem? rows i ≡ some ts
    → Leads n ts
AllLead-get_elem? n [] i ts h e = absurd cc
AllLead-get_elem? n (row ∷ rows) zero ts (l, h) e =
    let same : row ≡ ts = cc in subst (Leads n) same l
AllLead-get_elem? n (row ∷ rows) (suc i) ts (l, h) e = AllLead-get_elem? n rows i ts h e

-- a step keeps all but the state and the events
record Steps (p q : Parser) : Type 0 where
  classes : q.classes ≡ p.classes
  def : q.def ≡ p.def
  at : q.state < length p.def.states

fire-Steps :
    (t : Transition) (c : ℕ) (p : Parser) → t.dest < length p.def.states → Steps p (fire t c p)
fire-Steps t c p h = go t.act2
  where
    go :
        (a : Option Action)
        → Steps p (record (act_twice a c (record p { e1 = t.act1 p.e1 c })) { state = t.dest })
    go none = record { classes = refl; def = refl; at = h }
    go (some a) = record { classes = refl; def = refl; at = h }

first_match-Steps :
    (ts : List Transition) (type c : ℕ) (p : Parser)
    → Leads (length p.def.states) ts
    → p.state < length p.def.states
    → Steps p (first_match ts type c p)
unfolding first_match
first_match-Steps [] type c p l h = record { classes = refl; def = refl; at = h }
first_match-Steps (t ∷ ts) type c p (d, l) h =
    if_lem (Steps p) (matches t.when type c) (λ _. fire-Steps t c p d)
      (λ _. first_match-Steps ts type c p l h)

parser_feed-IsValid :
    (p : Parser) (c : ℕ)
    → IsValid p
    → c < 256
    → (q : Parser) × (parser_feed p c ≡ some q) × IsValid q
unfolding parser_feed
parser_feed-IsValid p c v h =
    let (type, t) = get_elem?-some p.classes c (omega (arith, v.classes)) in
    let (ts, r) = get_elem?-some p.def.states p.state v.at in
    let s =
      first_match-Steps ts type c (record p { e1 = without_next p.e1; e2 = without_next p.e2 })
        (AllLead-get_elem? (length p.def.states) p.def.states p.state ts v.leads r) v.at in
    let q = first_match ts type c (record p { e1 = without_next p.e1; e2 = without_next p.e2 }) in
    (
      q,
      ap₂ (λ a b. feed_at a b c p) t r,
      record {
        classes = ap length s.classes ∙ v.classes;
        leads = subst (λ (d : Definition). AllLead (length d.states) d.states) (sym s.def) v.leads;
        at = subst (λ (d : Definition). q.state < length d.states) (sym s.def) s.at;
        start = subst (λ (d : Definition). d.start_state < length d.states) (sym s.def) v.start;
      },
    )

-- A parser whose table is closed, with a class for every byte, reads no array behind its end,
-- whatever bytes it is fed, and stays such a parser.
pub feed_all-IsValid :
    (t : List ℕ) (p : Parser)
    → IsValid p
    → AllBytes t
    → (q : Parser) × (feed_all t (some p) ≡ some q) × IsValid q
unfolding feed_all
feed_all-IsValid [] p v h = (p, refl, v)
feed_all-IsValid (c ∷ t) p v (h, hs) =
    let (q, e, w) = parser_feed-IsValid p c v h in
    let (r, f, x) = feed_all-IsValid t q w hs in (r, ap (feed_all t) e ∙ f, x)
