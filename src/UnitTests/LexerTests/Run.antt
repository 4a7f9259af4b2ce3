-- ===== src/UnitTests/LexerTests/Run.antt =====
-- `main` of ut_lexer.c.
use embedjson.Base.Ints.{ℤ}
use embedjson.Base.{ℕ, Bool, true, false, List, [], ◌∷◌, Option, none, some, if◌then◌else◌}
use embedjson.Common.{Outcome, ret, fault}
use embedjson.Config.{Config}
use embedjson.Lexer.Double.{Doubles}
use embedjson.Lexer.Push.{push, finalize}
use embedjson.Lexer.{Lexer, initial_lexer}
use embedjson.UnitTests.LexerTests.Structure.{test_01, test_02, test_03, test_04, test_05}
use embedjson.UnitTests.LexerTests.Strings.{test_06, test_07, test_08, test_09, test_10}
use embedjson.UnitTests.LexerTests.Utf8.{
  test_11, test_12, test_13, test_14, test_15, test_16, test_17, test_18,
}
use embedjson.UnitTests.LexerTests.Suite.{
  test_19, test_20, test_21, test_22, test_23, test_24, test_25, test_26, test_27,
}
use embedjson.UnitTests.LexerTests.Escapes.{
  test_28, test_29, test_30, test_31, test_32, test_33, test_34,
}
use embedjson.UnitTests.LexerTests.Exponents.{
  test_35, test_36, test_37, test_38, test_39, test_40, test_41, test_42, test_43,
}
use embedjson.UnitTests.LexerTests.{TestCase, TokenInfo, Progress, test_sink}

-- How a test ends: `exit(1)`, "OK" or "SKIPPED", or undefined behaviour.
pub data Verdict : Type 0 where
  failed passed crashed : Verdict

-- How the program ends; `unfinished` if the fuel is out, which nothing reaches.
pub data End : Type 0 where
  exits : ℕ → End
  faults unfinished : End

-- A test with its `enabled`.
pub record Entry (D : Type 0) : Type 0 where
  pub enabled : Bool
  pub test : TestCase D

module _ {D : Type 0} where
  abbrev pub no_more : List (TokenInfo D) → Bool
  no_more [] = true
  no_more _ = false

  abbrev pub judged : Progress D → Verdict
  judged u = if u.exited then failed else if no_more u.expected then passed else failed

  -- TEST_CASE
  abbrev pub always : TestCase D → Entry D
  always test = record { enabled = true; test = test }

module _ {D : Type 0} (cfg : Config) where
  -- TEST_CASE_IF_VALIDATE_UTF8
  abbrev pub if_validate_utf8 : TestCase D → Entry D
  if_validate_utf8 test = record { enabled = cfg.validate_utf8; test = test }

  -- TEST_CASE_IF_BIGNUM
  abbrev pub if_bignum : TestCase D → Entry D
  if_bignum test = record { enabled = cfg.bignum; test = test }

module _ {D : Type 0} where
  -- `embedjson_lexer_finalize`, whose status is not looked at.
  unfoldable pub finalized : Outcome (Progress D) → Verdict
  finalized (ret status u) = judged u
  finalized fault = crashed

  -- Behind a call of `embedjson_lexer_push`, whose status is not looked at.
  abbrev pub pushed :
      Outcome (Lexer × Progress D) → (Lexer → Progress D → Option Verdict) → Option Verdict
  pushed (ret status (lex, u)) rest = if u.exited then some failed else rest lex u
  pushed fault rest = some crashed

abbrev pub counted : Option Verdict → End → End
counted none rest = unfinished
counted (some failed) rest = exits 1
counted (some passed) rest = rest
counted (some crashed) rest = faults

module _ {D : Type 0} (cfg : Config) (fl : Doubles D) (same_double : D → D → Bool) where
  unfoldable pub run_chunks : List (List ℕ) → Lexer → Progress D → Option Verdict
  run_chunks [] lex u = some (finalized (finalize cfg fl (test_sink same_double) lex u))
  run_chunks (c ∷ rest) lex u = elim (push cfg fl (test_sink same_double) lex u c) [
    | none ↦ none
    | some m ↦ pushed m (λ lex' u'. run_chunks rest lex' u')
  ]

  -- One iteration of the loop over the tests.
  unfoldable pub run_test : Entry D → Option Verdict
  run_test entry =
      let u : Progress D = record { expected = entry.test.tokens; exited = false } in
      if entry.enabled then run_chunks entry.test.data_chunks initial_lexer u else some passed

  -- `main`
  unfoldable pub run_tests : List (Entry D) → End
  run_tests [] = exits 0
  run_tests (entry ∷ rest) = let more = run_tests rest in counted (run_test entry) more

-- The table. `literal m k` stands for the literal of C whose value is m times 10 to the power of k.
abbrev pub all_tests : {D : Type 0} → Config → (ℤ → ℤ → D) → List (Entry D)
all_tests cfg literal =
    always (test_01 literal)
    ∷ always (test_02 literal)
    ∷ always (test_03 literal)
    ∷ always (test_04 literal)
    ∷ always (test_05 literal)
    ∷ always (test_06 literal)
    ∷ always (test_07 literal)
    ∷ always (test_08 literal)
    ∷ always (test_09 literal)
    ∷ always (test_10 literal)
    ∷ if_validate_utf8 cfg (test_11 literal)
    ∷ if_validate_utf8 cfg (test_12 literal)
    ∷ if_validate_utf8 cfg (test_13 literal)
    ∷ if_validate_utf8 cfg (test_14 literal)
    ∷ if_validate_utf8 cfg (test_15 literal)
    ∷ if_validate_utf8 cfg (test_16 literal)
    ∷ if_validate_utf8 cfg (test_17 literal)
    ∷ if_validate_utf8 cfg (test_18 literal)
    ∷ always (test_19 literal)
    ∷ always (test_20 literal)
    ∷ always (test_21 literal)
    ∷ always (test_22 literal)
    ∷ always (test_23 literal)
    ∷ always (test_24 literal)
    ∷ always (test_25 literal)
    ∷ always (test_26 literal)
    ∷ always (test_27 literal)
    ∷ always (test_28 literal)
    ∷ always (test_29 literal)
    ∷ always (test_30 literal)
    ∷ always (test_31 literal)
    ∷ if_validate_utf8 cfg (test_32 literal)
    ∷ if_validate_utf8 cfg (test_33 literal)
    ∷ if_validate_utf8 cfg (test_34 literal)
    ∷ always (test_35 literal)
    ∷ always (test_36 literal)
    ∷ always (test_37 literal)
    ∷ always (test_38 literal)
    ∷ always (test_39 literal)
    ∷ always (test_40 literal)
    ∷ always (test_41 literal)
    ∷ if_bignum cfg (test_42 literal)
    ∷ if_bignum cfg (test_43 literal)
    ∷ []
