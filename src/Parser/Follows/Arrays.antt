-- ===== src/Parser/Follows/Arrays.antt =====
-- The states inside an array.
use embedjson.Base.{◌*◌, ◌<◌, ◌≡◌, ap, ◌∙◌, true, false, List, some, length}
use embedjson.Client.{Client, null, bool}
use embedjson.Common.{Position}
use embedjson.Config.{Config}
use embedjson.Lexer.{
  Token, open_curly_bracket, open_bracket, close_bracket, comma, true_token, false_token,
  null_token,
}
use embedjson.Parser.Automaton.{fsm, symbol, pop_square}
use embedjson.Parser.Follows.{
  empty_array_in_object, Moves-cast, pop_square-some, after_pop-closed, regular_pop,
}
use embedjson.Parser.Handlers.{
  token_maybe_array_value, token_expect_array_value, token_maybe_array_comma, close_array,
}
use embedjson.Parser.Invariant.{Obliging}
use embedjson.Parser.Moves.{
  Moves, open_object-Moves, open_array-Moves, close_array-Moves, primitive-Moves, enter-Moves,
  again_array-Moves,
}
use embedjson.Parser.Stack.Laws.{HasStack, brackets}
use embedjson.Parser.{
  ParserState, maybe_object_key, maybe_object_comma, maybe_array_value, expect_array_value,
  maybe_array_comma, Bracket, Parser,
}

module _ {U D : Type 0} (cfg : Config) (client : Client U D) (obliging : Obliging client)
    (p : Parser U) (ok : HasStack cfg p) (room : p.stack_size < 8 * length p.stack)
    (position : Position) {st' : ParserState} {stack' : List Bracket} where
  pub close_array-follows :
      pop_square (brackets p) ≡ some (st', stack')
      → Moves cfg st' stack' (close_array cfg client maybe_object_comma position p)
  close_array-follows e =
      let (rest, top, to) = pop_square-some (brackets p) e in
      Moves-cast (ap (λ st. some (st, rest)) (after_pop-closed rest) ∙ to)
        (close_array-Moves cfg client obliging p ok maybe_object_comma position rest top)

  pub maybe_array_comma-follows :
      (t : Token)
      → fsm maybe_array_comma (brackets p) (symbol t) ≡ some (st', stack')
      → Moves cfg st' stack' (token_maybe_array_comma cfg client t position p)
  unfolding fsm token_maybe_array_comma
  maybe_array_comma-follows comma e =
      Moves-cast e (enter-Moves cfg client obliging p ok expect_array_value)
  maybe_array_comma-follows close_bracket e = close_array-follows e
  maybe_array_comma-follows _ e = cc

  pub expect_array_value-follows :
      (t : Token)
      → fsm expect_array_value (brackets p) (symbol t) ≡ some (st', stack')
      → Moves cfg st' stack' (token_expect_array_value cfg client t position p)
  unfolding fsm token_expect_array_value
  expect_array_value-follows open_curly_bracket e =
      Moves-cast e (open_object-Moves cfg client obliging p ok room)
  expect_array_value-follows open_bracket e =
      Moves-cast e (open_array-Moves cfg client obliging p ok room)
  expect_array_value-follows true_token e =
      Moves-cast e (primitive-Moves cfg client obliging p ok (bool true) maybe_array_comma)
  expect_array_value-follows false_token e =
      Moves-cast e (primitive-Moves cfg client obliging p ok (bool false) maybe_array_comma)
  expect_array_value-follows null_token e =
      Moves-cast e (primitive-Moves cfg client obliging p ok null maybe_array_comma)
  expect_array_value-follows _ e = cc

  -- `]` behind `[`, where the array is not a value in an object.
  pub empty_array-follows :
      pop_square (brackets p) ≡ some (st', stack')
      → empty_array_in_object maybe_array_value (brackets p) close_bracket ≡ false
      → Moves cfg st' stack' (close_array cfg client maybe_object_key position p)
  empty_array-follows e regular =
      let (rest, top, to) = pop_square-some (brackets p) e in
      Moves-cast (ap (λ st. some (st, rest)) (regular_pop rest (rw top at regular)) ∙ to)
        (close_array-Moves cfg client obliging p ok maybe_object_key position rest top)

  pub maybe_array_value-follows :
      (t : Token)
      → p.state ≡ maybe_array_value
      → fsm maybe_array_value (brackets p) (symbol t) ≡ some (st', stack')
      → empty_array_in_object maybe_array_value (brackets p) t ≡ false
      → Moves cfg st' stack' (token_maybe_array_value cfg client t position p)
  unfolding fsm token_maybe_array_value
  maybe_array_value-follows open_curly_bracket in_state e r =
      Moves-cast e (open_object-Moves cfg client obliging p ok room)
  maybe_array_value-follows open_bracket in_state e r =
      Moves-cast e (again_array-Moves cfg client obliging p ok room in_state)
  maybe_array_value-follows close_bracket in_state e r = empty_array-follows e r
  maybe_array_value-follows true_token in_state e r =
      Moves-cast e (primitive-Moves cfg client obliging p ok (bool true) maybe_array_comma)
  maybe_array_value-follows false_token in_state e r =
      Moves-cast e (primitive-Moves cfg client obliging p ok (bool false) maybe_array_comma)
  maybe_array_value-follows null_token in_state e r =
      Moves-cast e (primitive-Moves cfg client obliging p ok null maybe_array_comma)
  maybe_array_value-follows _ in_state e r = cc
