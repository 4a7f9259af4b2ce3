-- ===== src/UnitTests/ParserTests/Run.antt =====
-- `main` of ut_parser.c.
use embedjson.Base.{
  ℕ, zero, suc, ◌==◌, Bool, true, false, List, [], ◌∷◌, Option, none, some, if◌then◌else◌,
}
use embedjson.Common.{Outcome, ret, fault}
use embedjson.Config.{Config}
use embedjson.Lexer.Double.{Doubles}
use embedjson.Lexer.{Lexer, initial_lexer}
use embedjson.Parser.Api.{initial_parser, push, finalize}
use embedjson.Parser.{Parser}
use embedjson.UnitTests.ParserTests.First.{
  test_01, test_02, test_03, test_04, test_05, test_06, test_07, test_08, test_09, test_10,
}
use embedjson.UnitTests.ParserTests.Second.{
  test_11, test_12, test_13, test_14, test_15, test_16, test_17, test_18, test_19, test_20, test_21,
  test_22, test_23, test_24, test_25, test_26, test_27, test_28, test_29, test_30,
}
use embedjson.UnitTests.ParserTests.{TestCase, CallType, Progress, magic, test_client}

-- How a test ends: `exit(1)`, `break` out of the loop over the tests, "OK", or undefined behaviour.
pub data Verdict : Type 0 where
  failed abandoned passed crashed : Verdict

-- How the program ends; `unfinished` if the fuel is out, which nothing reaches.
pub data End : Type 0 where
  exits : ℕ → End
  faults unfinished : End

abbrev pub no_more : List CallType → Bool
no_more [] = true
no_more _ = false

-- The test behind the calls of the library, and the message "OK".
abbrev pub judged : Progress → Verdict
judged u = if u.exited then failed else if no_more u.expected then passed else failed

-- A status other than 0: MAGIC, or an unknown error.
abbrev pub by_status : ℕ → Progress → Verdict → Verdict
by_status err u at_magic = if u.exited then failed else if err == magic then at_magic else failed

-- `embedjson_finalize` and what follows it. Its MAGIC leaves the loop over the tests.
unfoldable pub finalized : Outcome (Parser Progress) → Verdict
finalized (ret zero p) = judged p.user
finalized (ret (suc e) p) = by_status (suc e) p.user abandoned
finalized fault = crashed

-- Behind a call of `embedjson_push`. MAGIC leaves the loop over the chunks.
abbrev pub pushed :
    Outcome (Lexer × Parser Progress) → (Lexer → Parser Progress → Option Verdict) → Option Verdict
pushed (ret zero (lex, p)) rest = rest lex p
pushed (ret (suc e) (lex, p)) rest = some (by_status (suc e) p.user (judged p.user))
pushed fault rest = some crashed

-- The end of the program by the verdict on one test and the end behind it.
abbrev pub counted : Option Verdict → End → End
counted none rest = unfinished
counted (some failed) rest = exits 1
counted (some abandoned) rest = exits 0
counted (some passed) rest = rest
counted (some crashed) rest = faults

module _ {D : Type 0} (cfg : Config) (fl : Doubles D) (realloc : List ℕ → ℕ → Option (List ℕ)) where
  unfoldable pub run_chunks : List (List ℕ) → Lexer → Parser Progress → Option Verdict
  run_chunks [] lex p = some (finalized (finalize cfg fl (test_client realloc) lex p))
  run_chunks (c ∷ rest) lex p = elim (push cfg fl (test_client realloc) lex p c) [
    | none ↦ none
    | some m ↦ pushed m (λ lex' p'. run_chunks rest lex' p')
  ]

  -- One iteration of the loop over the tests. `stack` is what `memset` clears.
  unfoldable pub run_test : List ℕ → TestCase → Option Verdict
  run_test stack test =
      run_chunks test.data_chunks initial_lexer
        (initial_parser stack 0 (record { expected = test.calls; exited = false }))

  -- `main`
  unfoldable pub run_tests : List ℕ → List TestCase → End
  run_tests stack [] = exits 0
  run_tests stack (test ∷ rest) =
      let more = run_tests stack rest in counted (run_test stack test) more

abbrev pub all_tests : List TestCase
all_tests =
    test_01 ∷ test_02 ∷ test_03 ∷ test_04 ∷ test_05 ∷ test_06 ∷ test_07 ∷ test_08 ∷ test_09
    ∷ test_10 ∷ test_11 ∷ test_12 ∷ test_13 ∷ test_14 ∷ test_15 ∷ test_16 ∷ test_17 ∷ test_18
    ∷ test_19 ∷ test_20 ∷ test_21 ∷ test_22 ∷ test_23 ∷ test_24 ∷ test_25 ∷ test_26 ∷ test_27
    ∷ test_28 ∷ test_29 ∷ test_30 ∷ []
