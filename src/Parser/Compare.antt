-- ===== src/Parser/Compare.antt =====
-- The table of `parser_utils_strcmpi` against `strcasecmp`.
use protos_tpe_g.Prelude.{
  ℕ, suc, ◌+◌, ◌<◌, ◌≡◌, ◌≢◌, refl, ap, sym, ◌∙◌, ◌==◌, Bool, true, false, ◌&&◌, if_lem,
  if◌then◌else◌, some, List, [], ◌∷◌, length, ltb, take, drop, drop-add, tolower, strcasecmp_eq,
  arith,
}
use protos_tpe_g.Parser.{
  Event, Parser, Transition, parser_init, without_next, first_match, parser_feed, string_cmp_neq,
  eq, neq, may_eq, otherwise, compare_row, compare_rows, parser_utils_strcmpi, feed_all,
}
use protos_tpe_g.Parser.Rows.{
  verdict, is_ascii, same_letter, Compares, Failed, parser_feed-first_match,
  first_match-compare_row, AllBytes, type_after, Failed-feed_all,
}

and_true : (a b : Bool) → (a && b) ≡ true → (a ≡ true) × (b ≡ true)
and_true true b e = (refl, e)
and_true false b e = absurd cc

verdict-same :
    (x c : ℕ) (s t : List ℕ) → same_letter x c ≡ true → verdict (x ∷ s) (c ∷ t) ≡ verdict s t
unfolding verdict strcasecmp_eq
verdict-same x c s t e =
    let l : ltb (length (c ∷ t)) (length (x ∷ s)) ≡ ltb (length t) (length s) = ground arith in
    let (low, same) = and_true (ltb x 128) (tolower x == tolower c) e in rw (low, same, l) refl

and_false : (b : Bool) → (b && false) ≡ false
and_false true = refl
and_false false = refl

-- Two tests, of a letter and of the rest, where the letter fails.
letter_fails : (a b r v : Bool) → (a && b) ≡ false → ((a && r) && (b && v)) ≡ false
letter_fails true b r v e = rw e (and_false r)
letter_fails false b r v e = refl

verdict-other :
    (x c : ℕ) (s t : List ℕ) → same_letter x c ≡ false → verdict (x ∷ s) (c ∷ t) ≡ string_cmp_neq
unfolding verdict strcasecmp_eq
verdict-other x c s t e =
    rw
      (
        letter_fails (ltb x 128) (tolower x == tolower c) (is_ascii s) (strcasecmp_eq s t) e,
        letter_fails (ltb x 128) (tolower x == tolower c) (is_ascii (take (length t) s))
            (strcasecmp_eq (take (length t) s) t) e,
        and_false (ltb (length (c ∷ t)) (length (x ∷ s))),
      )
      refl

verdict-past : (c : ℕ) (t : List ℕ) → verdict [] (c ∷ t) ≡ string_cmp_neq
unfolding verdict strcasecmp_eq
verdict-past c t = let l : ltb (length (c ∷ t)) 0 ≡ false = ground arith in rw l refl

-- The event of a step that goes on is the verdict on what is compared so far.
verdict-step :
    (n i : ℕ) (s : List ℕ)
    → suc i + length s ≡ n
    → (c : ℕ) (e : Event) → ((if suc i == n then eq else may_eq) e c).type ≡ verdict s []
unfolding verdict strcasecmp_eq
verdict-step n i [] h c e = let d : (suc i == n) ≡ true = ground arith in rw d refl
verdict-step n i (x ∷ s) h c e =
    let d : (suc i == n) ≡ false = ground arith in
    let z : ltb 0 (length (x ∷ s)) ≡ true = ground arith in
    rw (d, z, and_false (is_ascii (x ∷ s))) refl

drop-compare_rows :
    (n i : ℕ) (s : List ℕ) → drop (suc (length s)) (compare_rows n i s) ≡ (otherwise n ∷ []) ∷ []
unfolding compare_rows
drop-compare_rows n i [] = refl
drop-compare_rows n i (x ∷ s) = drop-compare_rows n (suc i) s

-- What a step that does not match leads to.
Failed-to_state :
    (n i : ℕ) (s : List ℕ) (p : Parser)
    → Compares n i s p
    → (c : ℕ) (e1 e2 : Event) → Failed n (record p { e1 = neq e1 c; e2 = e2; state = suc n })
Failed-to_state n i s p h c e1 e2 = record {
  bytes = h.bytes;
  table =
      drop-add p.def.states (suc n) i (suc (length s)) (omega (arith, h.rest))
      ∙ (ap (drop (suc (length s))) h.table ∙ drop-compare_rows n i s);
  at = refl;
  event = refl;
}

Compares-to_state :
    (n i x : ℕ) (s : List ℕ) (p : Parser)
    → Compares n i (x ∷ s) p
    → (c : ℕ) (e1 e2 : Event)
    → Compares n (suc i) s (record p {
      e1 = (if suc i == n then eq else may_eq) e1 c;
      e2 = e2;
      state = if suc i == n then n else suc i;
    })
unfolding compare_rows
Compares-to_state n i x s p h c e1 e2 = record {
  bytes = h.bytes;
  at = if_lem (λ (k : ℕ). k ≡ suc i) (suc i == n) (λ e. ground arith) (λ e. refl);
  table = drop-add p.def.states (suc i) i 1 (omega arith) ∙ ap (drop 1) h.table;
  rest = omega (arith, h.rest);
}

abbrev cleared : Parser → Parser
cleared p = record p { e1 = without_next p.e1; e2 = without_next p.e2 }

-- the transitions of the state
abbrev row_of : ℕ → ℕ → List ℕ → List Transition
row_of n i [] = otherwise n ∷ []
row_of n i (x ∷ s) = compare_row n i x

step_of :
    (p : Parser) (c n i : ℕ) (s : List ℕ)
    → Compares n i s p
    → c < 256
    → (type : ℕ) × (parser_feed p c ≡ some (first_match (row_of n i s) type c (cleared p)))
unfolding compare_rows
step_of p c n i [] h hc =
    parser_feed-first_match p c (otherwise n ∷ []) ((otherwise n ∷ []) ∷ []) h.bytes hc
      (ap (λ k. drop k p.def.states) h.at ∙ h.table)
step_of p c n i (x ∷ s) h hc =
    parser_feed-first_match p c (compare_row n i x) (compare_rows n (suc i) s) h.bytes hc
      (ap (λ k. drop k p.def.states) h.at ∙ h.table)

-- The parser of a comparison, fed with any bytes.
Compares-feed_all :
    (t : List ℕ) (n i : ℕ) (s : List ℕ) (p : Parser)
    → Compares n i s p
    → p.e1.type ≡ verdict s []
    → AllBytes t
    → type_after (feed_all t (some p)) ≡ some (verdict s t)
unfolding feed_all first_match
Compares-feed_all [] n i s p h v ht = ap some v
Compares-feed_all (c ∷ t) n i [] p h v (hc, ht) =
    let e = step_of p c n i [] h hc in
    ap (λ o. type_after (feed_all t o)) e.1
    ∙ (Failed-feed_all t n _ (failed_at e.0) ht ∙ ap some (sym (verdict-past c t)))
  where
    failed_at : (type : ℕ) → Failed n (first_match (otherwise n ∷ []) type c (cleared p))
    failed_at type = Failed-to_state n i [] p h c (without_next p.e1) (without_next p.e2)
Compares-feed_all (c ∷ t) n i (x ∷ s) p h v (hc, ht) =
    let e = step_of p c n i (x ∷ s) h hc in
    ap (λ o. type_after (feed_all t o))
      (e.1 ∙ ap some (first_match-compare_row n i x e.0 c (cleared p)))
    ∙ if_lem (λ q. type_after (feed_all t (some q)) ≡ some (verdict (x ∷ s) (c ∷ t)))
        (same_letter x c)
        (λ same.
          let h' = Compares-to_state n i x s p h c (without_next p.e1) (without_next p.e2) in
          Compares-feed_all t n (suc i) s _ h'
            (verdict-step n i s (omega (arith, h.rest)) c (without_next p.e1)) ht
          ∙ ap some (sym (verdict-same x c s t same)))
        (λ other.
          Failed-feed_all t n _
            (Failed-to_state n i (x ∷ s) p h c (without_next p.e1) (without_next p.e2)) ht
          ∙ ap some (sym (verdict-other x c s t other)))

-- With a class for each of the 256 bytes, the comparison of bytes with a word that is not empty: the
-- last event says whether they are equal but for the case, can still become so, or cannot, where a
-- byte from 128 on in the word equals no byte.
pub parser_utils_strcmpi-verdict :
    (classes s t : List ℕ)
    → length classes ≡ 256
    → s ≢ []
    → AllBytes t
    → type_after (feed_all t (some (parser_init classes (parser_utils_strcmpi true s))))
      ≡ some (verdict s t)
unfolding parser_init parser_utils_strcmpi verdict strcasecmp_eq
parser_utils_strcmpi-verdict classes [] t l n ht = absurd (n refl)
parser_utils_strcmpi-verdict classes (x ∷ s) t l n ht =
    let z : ltb 0 (length (x ∷ s)) ≡ true = ground arith in
    Compares-feed_all t (length (x ∷ s)) 0 (x ∷ s)
      (parser_init classes (parser_utils_strcmpi true (x ∷ s)))
      (record { bytes = l; at = refl; table = refl; rest = omega arith })
      (rw (z, and_false (is_ascii (x ∷ s))) refl) ht
