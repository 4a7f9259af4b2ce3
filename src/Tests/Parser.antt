-- ===== src/Tests/Parser.antt =====
-- The theorems about parser.c at concrete parsers, with the recording client.
use embedjson.Base.{◌≡◌, refl, true, false, List, [], ◌∷◌, none, some, replicate, arith}
use embedjson.Base.Ints.{pos}
use embedjson.Client.{int, double, string_begin, string_end, bignum_begin, bignum_end}
use embedjson.Common
use embedjson.Common.{Position, null_position, at, Outcome, ret, fault}
use embedjson.Config.{default_config}
use embedjson.Lexer.{close_bracket, comma}
use embedjson.Parser.Automaton.{fsm, string, primitive}
use embedjson.Parser.Bignum.{bignum-invalid}
use embedjson.Parser.Debug.{with_debug, debug_silent}
use embedjson.Parser.EmptyArray.{empty_array-misleads}
use embedjson.Parser.Follows.Tokens.{token-follows-fsm, token-rejects, code_for}
use embedjson.Parser.Handlers.{token}
use embedjson.Parser.Handlers.Scalars.{tokeni, tokenf, tokenbn_begin, tokenbn_end}
use embedjson.Parser.Handlers.Strings.{tokenc, tokenc_begin, tokenc_end}
use embedjson.Parser.Invariant.{IsParser, Obliging}
use embedjson.Parser.Stack.Laws.{HasStack, brackets}
use embedjson.Parser.Stack.{read_bit}
use embedjson.Parser.Values.{string-follows-fsm, number-follows-fsm, value-rejects}
use embedjson.Parser.{
  ParserState, maybe_object_key, maybe_array_value, maybe_array_comma, maybe_object_comma,
  expect_colon, invalid, Bracket, curly, square, Parser, call, error,
}
use embedjson.Tests.{whole, Entry, recorder}

abbrev U : Type 0
U = List Entry

-- A parser inside `{"key":[`, in the state given.
abbrev pub nested : ParserState → Parser U
nested st = record {
  state = st;
  stack_size = 2;
  stack = 2 ∷ replicate 15 0;
  stack_capacity = 0;
  user = [];
}

-- A parser inside `{`.
abbrev in_object : ParserState → Parser U
in_object st = record {
  state = st;
  stack_size = 1;
  stack = replicate 16 0;
  stack_capacity = 0;
  user = [];
}

nested-HasStack : (st : ParserState) → HasStack default_config (nested st)
nested-HasStack st = record {
  capacity_eq = refl;
  small = omega arith;
  size_le = omega arith;
  bytes = omega arith;
}

in_object-HasStack : (st : ParserState) → HasStack default_config (in_object st)
in_object-HasStack st = record {
  capacity_eq = refl;
  small = omega arith;
  size_le = omega arith;
  bytes = omega arith;
}

pub at_array-IsParser : IsParser default_config (nested maybe_array_value)
unfolding read_bit
at_array-IsParser = record { has_stack = nested-HasStack maybe_array_value; fit = refl }

at_comma-IsParser : IsParser default_config (nested maybe_array_comma)
unfolding read_bit
at_comma-IsParser = record { has_stack = nested-HasStack maybe_array_comma; fit = refl }

at_colon-IsParser : IsParser default_config (in_object expect_colon)
unfolding read_bit
at_colon-IsParser = record { has_stack = in_object-HasStack expect_colon; fit = refl }

pub recorder-Obliging : Obliging recorder
recorder-Obliging e u = refl

nested-brackets : (st : ParserState) → brackets (nested st) ≡ square ∷ curly ∷ []
unfolding read_bit
nested-brackets st = refl

-- `]` behind a value in an array in an object
token-follows-fsm_example :
    (q : Parser U) × (token default_config recorder close_bracket (at 9) (nested maybe_array_comma)
      ≡ ret 0 q)
    × (q.state ≡ maybe_object_comma)
    × (brackets q ≡ curly ∷ [])
    × IsParser default_config q
unfolding fsm read_bit
token-follows-fsm_example =
    token-follows-fsm default_config recorder (nested maybe_array_comma) (at 9) close_bracket
      recorder-Obliging at_comma-IsParser (omega arith) refl refl

token-rejects_example :
    token default_config recorder comma (at 4) (in_object expect_colon)
    ≡ error recorder (code_for expect_colon comma) (at 4) (in_object expect_colon)
unfolding fsm
token-rejects_example =
    token-rejects default_config recorder (in_object expect_colon) (at 4) comma at_colon-IsParser
      refl

string-follows-fsm_example :
    (tokenc_begin default_config recorder (at 1) (in_object maybe_object_key)
      ≡ call recorder string_begin (in_object maybe_object_key))
    × (tokenc_end default_config recorder (at 5) (in_object maybe_object_key)
        ≡ call recorder string_end (in_object expect_colon))
    × (brackets (in_object maybe_object_key) ≡ brackets (in_object maybe_object_key))
unfolding fsm
string-follows-fsm_example =
    string-follows-fsm default_config recorder (in_object maybe_object_key) refl (at 1) (at 5) []

number-follows-fsm_example :
    (tokeni default_config recorder (pos 7) (at 2) (nested maybe_array_value)
      ≡ call recorder (int (pos 7)) (nested maybe_array_comma))
    × (tokenf default_config recorder (whole (pos 7)) (at 2) (nested maybe_array_value)
        ≡ call recorder (double (whole (pos 7))) (nested maybe_array_comma))
    × (brackets (nested maybe_array_value) ≡ brackets (nested maybe_array_value))
unfolding fsm
number-follows-fsm_example =
    number-follows-fsm default_config recorder (nested maybe_array_value) refl (at 2) (pos 7)
      (whole (pos 7))

value-rejects_example :
    (fsm expect_colon (brackets (in_object expect_colon)) string ≡ none
      → tokenc_begin default_config recorder (at 3) (in_object expect_colon)
        ≡ error recorder Common.exp_colon (at 3) (in_object expect_colon))
    × (fsm expect_colon (brackets (in_object expect_colon)) primitive ≡ none
        → (tokeni default_config recorder (pos 1) (at 3) (in_object expect_colon)
            ≡ error recorder Common.exp_colon (at 3) (in_object expect_colon))
          × (tokenf default_config recorder (whole (pos 1)) (at 3) (in_object expect_colon)
              ≡ error recorder Common.exp_colon (at 3) (in_object expect_colon)))
value-rejects_example =
    value-rejects default_config recorder (in_object expect_colon) at_colon-IsParser (at 3) (pos 1)
      (whole (pos 1))

bignum-invalid_example :
    (tokenbn_begin default_config recorder (at 2) (pos 7) (nested maybe_array_value)
      ≡ call recorder (bignum_begin (pos 7)) (nested maybe_array_comma))
    × (default_config.debug ≡ false
        → tokenbn_end default_config recorder (at 5) (nested maybe_array_comma)
          ≡ call recorder bignum_end (nested invalid))
    × (default_config.debug ≡ true
        → tokenbn_end default_config recorder (at 5) (nested maybe_array_comma)
          ≡ error recorder Common.internal_error (at 5) (nested invalid))
unfolding fsm
bignum-invalid_example =
    bignum-invalid default_config recorder (nested maybe_array_value) refl (at 2) (at 5) (pos 7) []

empty_array-misleads_example :
    (q : Parser U) × (token default_config recorder close_bracket (at 6) (nested maybe_array_value)
      ≡ ret 0 q)
    × (q.state ≡ maybe_object_key)
    × (brackets q ≡ curly ∷ [])
    × ((next : Position)
        → (token default_config recorder comma next q ≡ error recorder Common.exp_object_key next q)
          × (tokenc_begin default_config recorder next q ≡ call recorder string_begin q))
empty_array-misleads_example =
    empty_array-misleads default_config recorder (nested maybe_array_value) recorder-Obliging
      at_array-IsParser refl [] (nested-brackets maybe_array_value) (at 6)

debug_silent_example :
    let p = nested maybe_array_value in
    (token (with_debug default_config true) recorder close_bracket (at 6) p
      ≡ token (with_debug default_config false) recorder close_bracket (at 6) p)
    × (tokeni (with_debug default_config true) recorder (pos 1) (at 6) p
        ≡ tokeni (with_debug default_config false) recorder (pos 1) (at 6) p)
    × (tokenf (with_debug default_config true) recorder (whole (pos 1)) (at 6) p
        ≡ tokenf (with_debug default_config false) recorder (whole (pos 1)) (at 6) p)
    × (tokenc_begin (with_debug default_config true) recorder (at 6) p
        ≡ tokenc_begin (with_debug default_config false) recorder (at 6) p)
    × (tokenc (with_debug default_config true) recorder (at 6) (97 ∷ []) p
        ≡ tokenc (with_debug default_config false) recorder (at 6) (97 ∷ []) p)
    × ((st' : ParserState) (stack' : List Bracket)
        → fsm maybe_array_value (brackets p) string ≡ some (st', stack')
        → tokenc_end (with_debug default_config true) recorder (at 6) p
          ≡ tokenc_end (with_debug default_config false) recorder (at 6) p)
debug_silent_example =
    debug_silent default_config recorder (nested maybe_array_value) at_array-IsParser true (at 6)
      close_bracket (pos 1) (whole (pos 1)) (97 ∷ [])
