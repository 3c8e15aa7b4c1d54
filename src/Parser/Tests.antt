-- ===== src/Parser/Tests.antt =====
-- Runs of the parser engine on small inputs.
use protos_tpe_g.Prelude.{
  ℕ, ◌≡◌, refl, true, none, some, [], ◌∷◌, codes, replicate, length-replicate, tolower, toupper,
  arith,
}
use protos_tpe_g.Parser.{
  Parser, parser_init, parser_feed, first_match, parser_utils_strcmpi, parser_no_classes,
  compare_rows, feed_all,
}
use protos_tpe_g.Parser.Compare.{parser_utils_strcmpi-verdict}
use protos_tpe_g.Parser.Rows.{verdict, type_after}
use protos_tpe_g.Parser.Running.{IsValid, feed_all-IsValid}

abbrev foo : Parser
foo = parser_init (replicate 256 0) (parser_utils_strcmpi true (codes "Foo"))

feed_test : type_after (feed_all (codes "fOo") (some foo)) ≡ some 1
unfolding feed_all parser_feed first_match parser_init parser_utils_strcmpi compare_rows tolower
    toupper
feed_test = refl

-- The byte 255 has no class in the array of `parser_no_classes`.
feed_255 :
    parser_feed (parser_init parser_no_classes (parser_utils_strcmpi true (codes "Foo"))) 255 ≡ none
unfolding parser_feed parser_init parser_utils_strcmpi compare_rows
feed_255 = refl

-- The byte 255 does not match itself: as a `char` of the word it is negative.
high_test :
    type_after (
      feed_all
        (255 ∷ [])
        (some (parser_init (replicate 256 0) (parser_utils_strcmpi true (255 ∷ [])))))
    ≡ some 2
unfolding feed_all parser_feed first_match parser_init parser_utils_strcmpi compare_rows
high_test = refl

compare_example :
    type_after (feed_all (codes "fO") (some foo)) ≡ some (verdict (codes "Foo") (codes "fO"))
compare_example =
    parser_utils_strcmpi-verdict (replicate 256 0) (codes "Foo") (codes "fO")
      (length-replicate {A = ℕ} 256 0) (λ e. cc) (ground arith)

foo-IsValid : IsValid foo
unfolding parser_init parser_utils_strcmpi compare_rows
foo-IsValid = record {
  classes = length-replicate {A = ℕ} 256 0;
  leads = ground arith;
  at = omega arith;
  start = omega arith;
}

running_example : (q : Parser) × (feed_all (codes "f.") (some foo) ≡ some q) × IsValid q
running_example = feed_all-IsValid (codes "f.") foo foo-IsValid (ground arith)
