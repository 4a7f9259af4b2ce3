-- ===== src/Parser/Automaton.antt =====
-- doc/syntax-parser-fsm.dot: the pushdown automaton that parser.c is written after. One clause
-- stands for the edges of one label out of one state.
use embedjson.Base.{List, [], ◌∷◌, Option, none, some}
use embedjson.Lexer.{
  Token, open_curly_bracket, close_curly_bracket, open_bracket, close_bracket, comma, colon,
  true_token, false_token, null_token,
}
use embedjson.Parser.{
  ParserState, expect_value, maybe_object_key, expect_object_key, expect_colon, maybe_object_comma,
  expect_object_value, maybe_array_value, expect_array_value, maybe_array_comma, done, invalid,
  Bracket, curly, square,
}

-- An input symbol. A `primitive` is a number, `true`, `false` or `null`; a string is one too, and
-- may also be a key.
pub data Symbol : Type 0 where
  open_curly close_curly open_square close_square separator key_mark string primitive : Symbol

abbrev pub Config : Type 0
Config = ParserState × List Bracket

-- Where an edge that pops leads, by what is left on the stack.
abbrev pub after_pop : List Bracket → ParserState
after_pop [] = done
after_pop (curly ∷ rest) = maybe_object_comma
after_pop (square ∷ rest) = maybe_array_comma

abbrev pub pop_curly : List Bracket → Option Config
pop_curly (curly ∷ rest) = some (after_pop rest, rest)
pop_curly _ = none

abbrev pub pop_square : List Bracket → Option Config
pop_square (square ∷ rest) = some (after_pop rest, rest)
pop_square _ = none

-- The edges of a state that wants a value.
abbrev pub value : ParserState → List Bracket → Symbol → Option Config
value next stack open_curly = some (maybe_object_key, curly ∷ stack)
value next stack open_square = some (maybe_array_value, square ∷ stack)
value next stack string = some (next, stack)
value next stack primitive = some (next, stack)
value next stack _ = none

abbrev pub fsm_maybe_object_key : List Bracket → Symbol → Option Config
fsm_maybe_object_key stack close_curly = pop_curly stack
fsm_maybe_object_key stack string = some (expect_colon, stack)
fsm_maybe_object_key stack _ = none

abbrev pub fsm_expect_object_key : List Bracket → Symbol → Option Config
fsm_expect_object_key stack string = some (expect_colon, stack)
fsm_expect_object_key stack _ = none

abbrev pub fsm_expect_colon : List Bracket → Symbol → Option Config
fsm_expect_colon stack key_mark = some (expect_object_value, stack)
fsm_expect_colon stack _ = none

abbrev pub fsm_maybe_object_comma : List Bracket → Symbol → Option Config
fsm_maybe_object_comma stack separator = some (expect_object_key, stack)
fsm_maybe_object_comma stack close_curly = pop_curly stack
fsm_maybe_object_comma stack _ = none

abbrev pub fsm_maybe_array_value : List Bracket → Symbol → Option Config
fsm_maybe_array_value stack close_square = pop_square stack
fsm_maybe_array_value stack a = value maybe_array_comma stack a

abbrev pub fsm_maybe_array_comma : List Bracket → Symbol → Option Config
fsm_maybe_array_comma stack separator = some (expect_array_value, stack)
fsm_maybe_array_comma stack close_square = pop_square stack
fsm_maybe_array_comma stack _ = none

-- `none` where no edge has the label.
unfoldable pub fsm : ParserState → List Bracket → Symbol → Option Config
fsm expect_value stack a = value done stack a
fsm maybe_object_key stack a = fsm_maybe_object_key stack a
fsm expect_object_key stack a = fsm_expect_object_key stack a
fsm expect_colon stack a = fsm_expect_colon stack a
fsm maybe_object_comma stack a = fsm_maybe_object_comma stack a
fsm expect_object_value stack a = value maybe_object_comma stack a
fsm maybe_array_value stack a = fsm_maybe_array_value stack a
fsm expect_array_value stack a = value maybe_array_comma stack a
fsm maybe_array_comma stack a = fsm_maybe_array_comma stack a
fsm done stack a = none
fsm invalid stack a = none

-- The symbol of a token of `embedjson_token`.
abbrev pub symbol : Token → Symbol
symbol open_curly_bracket = open_curly
symbol close_curly_bracket = close_curly
symbol open_bracket = open_square
symbol close_bracket = close_square
symbol comma = separator
symbol colon = key_mark
symbol true_token = primitive
symbol false_token = primitive
symbol null_token = primitive
