-- ===== src/UnitTests/ParserTests/Compare.antt =====
-- How the loop over the tests of ut_parser.c ends behind a document that `embedjson_finalize` refuses.
use Prim.Native.String.{String}
use embedjson.Base.{Option, ℕ, ◌≡◌, refl, ap, ◌∙◌, false, List, [], ◌∷◌, some}
use embedjson.Common.{ret}
use embedjson.Config.{Config}
use embedjson.Lexer.Double.{Doubles}
use embedjson.Lexer.Push
use embedjson.Lexer.Push.{finalize_in}
use embedjson.Lexer.{Lexer, lookup_token, initial_lexer}
use embedjson.Parser.Api.{initial_parser, push, finalize, is_done}
use embedjson.Parser.{Parser}
use embedjson.Common.{error_ex}
use embedjson.UnitTests.ParserTests.Run.{
  abandoned, exits, counted, finalized, run_chunks, run_test, run_tests,
}
use embedjson.UnitTests.ParserTests.{
  TestCase, CallType, call_error, Progress, compared, test_client,
}

abbrev pub expecting : List CallType → Progress
expecting calls = record { expected = calls; exited = false }

module _ {D : Type 0} (cfg : Config) (fl : Doubles D) (realloc : List ℕ → ℕ → Option (List ℕ)) where
  finalize_magic :
      (lex : Lexer) (p : Parser Progress)
      → lex.state ≡ lookup_token
      → is_done p.state ≡ false
      → p.user ≡ expecting (call_error ∷ [])
      → finalized (finalize cfg fl (test_client {D = D} realloc) lex p) ≡ abandoned
  unfolding finalized finalize Push.finalize finalize_in error_ex compared
  finalize_magic lex p st unfinished u = rw (st, unfinished, u) refl

  one_chunk :
      (json : List ℕ) (lex lex' : Lexer) (p p' : Parser Progress)
      → push cfg fl (test_client realloc) lex p json ≡ some (ret 0 (lex', p'))
      → run_chunks cfg fl realloc (json ∷ []) lex p
        ≡ some (finalized (finalize cfg fl (test_client realloc) lex' p'))
  unfolding run_chunks
  one_chunk json lex lex' p p' e = rw (run_chunks, e) refl

  -- In ut_parser.c a test whose document is refused by `embedjson_finalize` only, as its table expects,
  -- leaves the loop over the tests: the tests behind it are not run, and the program returns 0.
  pub run_tests_abandons :
      (stack json : List ℕ) (name : String) (calls : List CallType) (rest : List TestCase)
      (lex : Lexer) (p : Parser Progress)
      → push cfg fl
          (test_client realloc)
          initial_lexer
          (initial_parser stack 0 (expecting calls))
          json
        ≡ some (ret 0 (lex, p))
      → lex.state ≡ lookup_token
      → is_done p.state ≡ false
      → p.user ≡ expecting (call_error ∷ [])
      → run_tests cfg fl realloc stack
          (record { name = name; data_chunks = json ∷ []; calls = calls } ∷ rest)
        ≡ exits 0
  unfolding run_tests run_test
  run_tests_abandons stack json name calls rest lex p e st unfinished u =
      ap (λ v. counted v (run_tests cfg fl realloc stack rest))
        (one_chunk json initial_lexer lex _ p e ∙ ap some (finalize_magic lex p st unfinished u))
