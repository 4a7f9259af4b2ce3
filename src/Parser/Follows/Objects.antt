-- ===== src/Parser/Follows/Objects.antt =====
-- The states at the top level and inside an object.
use embedjson.Base.{◌*◌, ◌<◌, ◌≡◌, ap, ◌∙◌, true, false, List, some, length}
use embedjson.Client.{Client, null, bool}
use embedjson.Common.{Position}
use embedjson.Config.{Config}
use embedjson.Lexer.{
  Token, open_curly_bracket, close_curly_bracket, open_bracket, comma, colon, true_token,
  false_token, null_token,
}
use embedjson.Parser.Automaton.{fsm, symbol, pop_curly}
use embedjson.Parser.Follows.{Moves-cast, pop_curly-some, after_pop-closed}
use embedjson.Parser.Handlers.{
  token_expect_value, token_maybe_object_key, token_expect_colon, token_maybe_object_comma,
  token_expect_object_value, close_object,
}
use embedjson.Parser.Invariant.{Obliging}
use embedjson.Parser.Moves.{
  Moves, open_object-Moves, open_array-Moves, close_object-Moves, primitive-Moves, enter-Moves,
}
use embedjson.Parser.Stack.Laws.{HasStack, brackets}
use embedjson.Parser.{
  ParserState, expect_value, maybe_object_key, expect_object_key, expect_colon, maybe_object_comma,
  expect_object_value, done, Bracket, Parser,
}

module _ {U D : Type 0} (cfg : Config) (client : Client U D) (obliging : Obliging client)
    (p : Parser U) (ok : HasStack cfg p) (room : p.stack_size < 8 * length p.stack)
    (position : Position) {st' : ParserState} {stack' : List Bracket} where
  pub close_object-follows :
      pop_curly (brackets p) ≡ some (st', stack')
      → Moves cfg st' stack' (close_object cfg client position p)
  close_object-follows e =
      let (rest, top, to) = pop_curly-some (brackets p) e in
      Moves-cast (ap (λ st. some (st, rest)) (after_pop-closed rest) ∙ to)
        (close_object-Moves cfg client obliging p ok position rest top)

  pub expect_value-follows :
      (t : Token)
      → fsm expect_value (brackets p) (symbol t) ≡ some (st', stack')
      → Moves cfg st' stack' (token_expect_value cfg client t position p)
  unfolding fsm token_expect_value
  expect_value-follows open_curly_bracket e =
      Moves-cast e (open_object-Moves cfg client obliging p ok room)
  expect_value-follows open_bracket e =
      Moves-cast e (open_array-Moves cfg client obliging p ok room)
  expect_value-follows true_token e =
      Moves-cast e (primitive-Moves cfg client obliging p ok (bool true) done)
  expect_value-follows false_token e =
      Moves-cast e (primitive-Moves cfg client obliging p ok (bool false) done)
  expect_value-follows null_token e =
      Moves-cast e (primitive-Moves cfg client obliging p ok null done)
  expect_value-follows _ e = cc

  pub maybe_object_key-follows :
      (t : Token)
      → fsm maybe_object_key (brackets p) (symbol t) ≡ some (st', stack')
      → Moves cfg st' stack' (token_maybe_object_key cfg client t position p)
  unfolding fsm token_maybe_object_key
  maybe_object_key-follows close_curly_bracket e = close_object-follows e
  maybe_object_key-follows _ e = cc

  pub expect_colon-follows :
      (t : Token)
      → fsm expect_colon (brackets p) (symbol t) ≡ some (st', stack')
      → Moves cfg st' stack' (token_expect_colon cfg client t position p)
  unfolding fsm token_expect_colon
  expect_colon-follows colon e =
      Moves-cast e (enter-Moves cfg client obliging p ok expect_object_value)
  expect_colon-follows _ e = cc

  pub maybe_object_comma-follows :
      (t : Token)
      → fsm maybe_object_comma (brackets p) (symbol t) ≡ some (st', stack')
      → Moves cfg st' stack' (token_maybe_object_comma cfg client t position p)
  unfolding fsm token_maybe_object_comma
  maybe_object_comma-follows comma e =
      Moves-cast e (enter-Moves cfg client obliging p ok expect_object_key)
  maybe_object_comma-follows close_curly_bracket e = close_object-follows e
  maybe_object_comma-follows _ e = cc

  pub expect_object_value-follows :
      (t : Token)
      → fsm expect_object_value (brackets p) (symbol t) ≡ some (st', stack')
      → Moves cfg st' stack' (token_expect_object_value cfg client t position p)
  unfolding fsm token_expect_object_value
  expect_object_value-follows open_curly_bracket e =
      Moves-cast e (open_object-Moves cfg client obliging p ok room)
  expect_object_value-follows open_bracket e =
      Moves-cast e (open_array-Moves cfg client obliging p ok room)
  expect_object_value-follows true_token e =
      Moves-cast e (primitive-Moves cfg client obliging p ok (bool true) maybe_object_comma)
  expect_object_value-follows false_token e =
      Moves-cast e (primitive-Moves cfg client obliging p ok (bool false) maybe_object_comma)
  expect_object_value-follows null_token e =
      Moves-cast e (primitive-Moves cfg client obliging p ok null maybe_object_comma)
  expect_object_value-follows _ e = cc
