-- ===== src/Tests/Units.antt =====
-- Runs of the unit tests of the repository on the model.
use embedjson.Base.{true, ℕ, some, ◌≡◌, ◌↔◌, refl, Option, none, List, [], ◌∷◌, replicate}
use embedjson.Config.{Config, default_config}
use embedjson.Tests.{symbolic, whole, power, plus}
use embedjson.UnitTests.LexerTests.Run as Lexer
use embedjson.Common.{ret}
use embedjson.Lexer.Encoding.{sniff}
use embedjson.Lexer.{initial_lexer}
use embedjson.Parser.Api.{initial_parser, push}
use embedjson.Parser.{maybe_array_value, Parser}
use embedjson.UnitTests.ParserTests.Compare.{expecting, run_tests_abandons}
use embedjson.UnitTests.ParserTests.Run.{End, exits, all_tests, run_tests}
use embedjson.UnitTests.ParserTests.{
  CallType, call_null, call_begin_object, call_begin_array, call_error, Progress, test_client,
}

abbrev no_memory : List ℕ → ℕ → Option (List ℕ)
no_memory stack n = none

parser_tests : End
parser_tests = run_tests default_config symbolic no_memory (replicate 16 0) all_tests

-- Doubles are not compared here: the symbolic ones are no numbers.
lexer_tests_pass :
    Lexer.run_tests default_config symbolic
      (λ x y. true)
      (Lexer.all_tests default_config (λ m k. plus (whole m) (power k)))
    ≡ Lexer.exits 0
unfolding embedjson.Lexer.Push.push embedjson.Lexer.Push.bytes_loop embedjson.Lexer.Push.byte_rounds
    embedjson.Lexer.Push.body embedjson.Lexer.Push.body_in embedjson.Lexer.Push.ending
    embedjson.Lexer.Push.flush_rest embedjson.Lexer.Push.finalize embedjson.Lexer.Push.finalize_in
    embedjson.Lexer.Push.final_double embedjson.Lexer.Double.final_fraction
    embedjson.Lexer.Step.Lookup.lookup embedjson.Lexer.Encoding.sniff embedjson.Config.int_max
    embedjson.Lexer.Double.fraction embedjson.Lexer.Double.powm10 embedjson.Lexer.Double.scale
    embedjson.Lexer.Double.signed embedjson.Lexer.Double.table_entry embedjson.Lexer.Encoding.as_int
    embedjson.Lexer.Encoding.detect embedjson.Lexer.Step.Keyword.keyword_at
    embedjson.Lexer.Step.Keyword.keyword_false embedjson.Lexer.Step.Keyword.keyword_null
    embedjson.Lexer.Step.Keyword.keyword_true embedjson.Lexer.Step.Number.big_number
    embedjson.Lexer.Step.Number.exponential embedjson.Lexer.Step.Number.hand_over
    embedjson.Lexer.Step.Number.number embedjson.Lexer.Step.Number.number_digit
    embedjson.Lexer.Step.Number.overflows embedjson.Lexer.Step.Number.number_exp
    embedjson.Lexer.Step.Number.number_exp_sign embedjson.Lexer.Step.Number.number_frac
    embedjson.Lexer.Step.Number.number_sign embedjson.Lexer.Step.Text.escaped
    embedjson.Lexer.Step.Text.hex_value embedjson.Lexer.Step.Text.string
    embedjson.Lexer.Step.Text.string_checked embedjson.Lexer.Step.Text.string_escape
    embedjson.Lexer.Step.Text.string_led embedjson.Lexer.Step.Text.string_plain
    embedjson.Lexer.Step.Text.string_unicode_escape embedjson.Lexer.Step.Text.unescape
    embedjson.Lexer.Step.Text.unicode_digit embedjson.Lexer.Step.Text.unicode_escaped
    embedjson.Lexer.Step.flush_bignum embedjson.Lexer.Step.flush_string
    embedjson.Lexer.Utf8.continuation embedjson.Lexer.Utf8.leading embedjson.Common.error_ex
    embedjson.UnitTests.LexerTests.compared embedjson.UnitTests.LexerTests.same_value
    embedjson.UnitTests.LexerTests.Run.run_tests embedjson.UnitTests.LexerTests.Run.run_test
    embedjson.UnitTests.LexerTests.Run.run_chunks embedjson.UnitTests.LexerTests.Run.finalized
    embedjson.Base.Bytes.same_bytes
lexer_tests_pass = refl

abbrev bignum_config : Config
bignum_config = record default_config { bignum = true }

lexer_tests_bignum_pass :
    Lexer.run_tests bignum_config symbolic
      (λ x y. true)
      (Lexer.all_tests bignum_config (λ m k. plus (whole m) (power k)))
    ≡ Lexer.exits 0
unfolding embedjson.Lexer.Push.push embedjson.Lexer.Push.bytes_loop embedjson.Lexer.Push.byte_rounds
    embedjson.Lexer.Push.body embedjson.Lexer.Push.body_in embedjson.Lexer.Push.ending
    embedjson.Lexer.Push.flush_rest embedjson.Lexer.Push.finalize embedjson.Lexer.Push.finalize_in
    embedjson.Lexer.Push.final_double embedjson.Lexer.Double.final_fraction
    embedjson.Lexer.Step.Lookup.lookup embedjson.Lexer.Encoding.sniff embedjson.Config.int_max
    embedjson.Lexer.Double.fraction embedjson.Lexer.Double.powm10 embedjson.Lexer.Double.scale
    embedjson.Lexer.Double.signed embedjson.Lexer.Double.table_entry embedjson.Lexer.Encoding.as_int
    embedjson.Lexer.Encoding.detect embedjson.Lexer.Step.Keyword.keyword_at
    embedjson.Lexer.Step.Keyword.keyword_false embedjson.Lexer.Step.Keyword.keyword_null
    embedjson.Lexer.Step.Keyword.keyword_true embedjson.Lexer.Step.Number.big_number
    embedjson.Lexer.Step.Number.exponential embedjson.Lexer.Step.Number.hand_over
    embedjson.Lexer.Step.Number.number embedjson.Lexer.Step.Number.number_digit
    embedjson.Lexer.Step.Number.overflows embedjson.Lexer.Step.Number.number_exp
    embedjson.Lexer.Step.Number.number_exp_sign embedjson.Lexer.Step.Number.number_frac
    embedjson.Lexer.Step.Number.number_sign embedjson.Lexer.Step.Text.escaped
    embedjson.Lexer.Step.Text.hex_value embedjson.Lexer.Step.Text.string
    embedjson.Lexer.Step.Text.string_checked embedjson.Lexer.Step.Text.string_escape
    embedjson.Lexer.Step.Text.string_led embedjson.Lexer.Step.Text.string_plain
    embedjson.Lexer.Step.Text.string_unicode_escape embedjson.Lexer.Step.Text.unescape
    embedjson.Lexer.Step.Text.unicode_digit embedjson.Lexer.Step.Text.unicode_escaped
    embedjson.Lexer.Step.flush_bignum embedjson.Lexer.Step.flush_string
    embedjson.Lexer.Utf8.continuation embedjson.Lexer.Utf8.leading embedjson.Common.error_ex
    embedjson.UnitTests.LexerTests.compared embedjson.UnitTests.LexerTests.same_value
    embedjson.UnitTests.LexerTests.Run.run_tests embedjson.UnitTests.LexerTests.Run.run_test
    embedjson.UnitTests.LexerTests.Run.run_chunks embedjson.UnitTests.LexerTests.Run.finalized
    embedjson.Base.Bytes.same_bytes
lexer_tests_bignum_pass = refl

-- A test of the unfinished document `[`, and the 30 tests behind it, which are not run.
abbrev open_array_calls : List CallType
open_array_calls = call_begin_array ∷ call_error ∷ []

abbrev behind_open_array : Parser Progress
behind_open_array = record {
  state = maybe_array_value;
  stack_size = 1;
  stack = 1 ∷ replicate 15 0;
  stack_capacity = 0;
  user = expecting (call_error ∷ []);
}

open_array-pushed :
    push default_config symbolic
      (test_client no_memory)
      initial_lexer
      (initial_parser (replicate 16 0) 0 (expecting open_array_calls))
      (b'[' ∷ [])
    ≡ some (ret 0 (sniff initial_lexer b'[', behind_open_array))
unfolding embedjson.Parser.Api.push embedjson.Lexer.Push.push embedjson.Lexer.Push.bytes_loop
    embedjson.Lexer.Push.byte_rounds embedjson.Lexer.Push.body embedjson.Lexer.Push.body_in
    embedjson.Lexer.Push.ending embedjson.Lexer.Push.flush_rest embedjson.Lexer.Step.Lookup.lookup
    embedjson.Lexer.Encoding.sniff embedjson.Parser.Handlers.token_in
    embedjson.Parser.Handlers.token_expect_value embedjson.Parser.Handlers.open_array
    embedjson.Parser.Stack.stack_push embedjson.Parser.Stack.stack_full
    embedjson.Parser.Stack.stack_write embedjson.Parser.Stack.write_bit
    embedjson.UnitTests.ParserTests.compared
open_array-pushed = refl

run_tests_abandons_example :
    run_tests default_config symbolic no_memory (replicate 16 0) (
      record { name = "unfinished"; data_chunks = (b'[' ∷ []) ∷ []; calls = open_array_calls }
      ∷ all_tests)
    ≡ exits 0
unfolding sniff
run_tests_abandons_example =
    run_tests_abandons default_config symbolic no_memory (replicate 16 0) (b'[' ∷ []) "unfinished"
      open_array_calls all_tests (sniff initial_lexer b'[') behind_open_array open_array-pushed refl
      refl refl
