-- ===== src/Parser/Follows.antt =====
-- `embedjson_token` of parser.c against the automaton of doc/syntax-parser-fsm.dot: what the states
-- share. One child is about the states inside an object, one about those inside an array.
pub mod Objects
pub mod Arrays
pub mod Tokens
use embedjson.Base.{
  ℕ, ◌*◌, ◌<◌, ◌≡◌, refl, ap, sym, ◌∙◌, Bool, true, false, List, [], ◌∷◌, Option, none, some,
  length, arith,
}
use embedjson.Client.{Client, null, bool}
use embedjson.Common
use embedjson.Common.{ErrorCode, Position, Outcome, ret}
use embedjson.Config.{Config}
use embedjson.Lexer.{
  Token, open_curly_bracket, close_curly_bracket, open_bracket, close_bracket, comma, colon,
  true_token, false_token, null_token,
}
use embedjson.Parser.Automaton.{fsm, symbol, pop_curly, pop_square, after_pop}
use embedjson.Parser.Handlers.{
  token_in, token, token_expect_value, token_maybe_object_key, token_expect_colon,
  token_maybe_object_comma, token_expect_object_value, token_maybe_array_value,
  token_expect_array_value, token_maybe_array_comma, close_object, close_array,
}
use embedjson.Parser.Invariant.{Obliging, IsParser, fits, closed_state}
use embedjson.Parser.Moves.{
  Moves, open_object-Moves, open_array-Moves, close_object-Moves, close_array-Moves,
  primitive-Moves, enter-Moves,
}
use embedjson.Parser.Stack.Laws.{HasStack, brackets}
use embedjson.Parser.{
  ParserState, expect_value, maybe_object_key, expect_object_key, expect_colon, maybe_object_comma,
  expect_object_value, maybe_array_value, expect_array_value, maybe_array_comma, done, invalid,
  Bracket, curly, square, Parser, error,
}

-- The one place where parser.c leaves the automaton: `]` behind `[` in an object.
abbrev pub empty_array_in_object : ParserState → List Bracket → Token → Bool
empty_array_in_object maybe_array_value (square ∷ curly ∷ rest) close_bracket = true
empty_array_in_object _ _ _ = false

pub Moves-cast :
    {U : Type 0} {cfg : Config} {st st' : ParserState} {stack stack' : List Bracket}
    {m : Outcome (Parser U)}
    → ◌≡◌ {A = Option (ParserState × List Bracket)} (some (st, stack)) (some (st', stack'))
    → Moves cfg st stack m
    → Moves cfg st' stack' m
Moves-cast e v = record {
  after = v.after;
  returns = v.returns;
  state_eq = v.state_eq ∙ cc;
  brackets_eq = v.brackets_eq ∙ cc;
  has_stack = v.has_stack;
}

pub pop_curly-some :
    (stack : List Bracket) {st' : ParserState} {stack' : List Bracket}
    → pop_curly stack ≡ some (st', stack')
    → (rest : List Bracket) × (stack ≡ curly ∷ rest)
      × ◌≡◌ {A = Option (ParserState × List Bracket)}
          (some (after_pop rest, rest))
          (some (st', stack'))
pop_curly-some (curly ∷ rest) e = (rest, refl, e)
pop_curly-some (square ∷ rest) e = cc
pop_curly-some [] e = cc

pub pop_square-some :
    (stack : List Bracket) {st' : ParserState} {stack' : List Bracket}
    → pop_square stack ≡ some (st', stack')
    → (rest : List Bracket) × (stack ≡ square ∷ rest)
      × ◌≡◌ {A = Option (ParserState × List Bracket)}
          (some (after_pop rest, rest))
          (some (st', stack'))
pop_square-some (square ∷ rest) e = (rest, refl, e)
pop_square-some (curly ∷ rest) e = cc
pop_square-some [] e = cc

pub after_pop-closed :
    (rest : List Bracket) → closed_state maybe_object_comma maybe_array_comma rest ≡ after_pop rest
after_pop-closed [] = refl
after_pop-closed (curly ∷ rest) = refl
after_pop-closed (square ∷ rest) = refl

pub regular_pop :
    (rest : List Bracket)
    → empty_array_in_object maybe_array_value (square ∷ rest) close_bracket ≡ false
    → closed_state maybe_object_key maybe_array_comma rest ≡ after_pop rest
regular_pop [] h = refl
regular_pop (curly ∷ rest) h = cc
regular_pop (square ∷ rest) h = refl
