-- ===== src/Parser/Safety/Tokens.antt =====
-- `embedjson_token` of parser.c keeps the parser's invariant in every state.
use embedjson.Base.{◌≡◌, refl, true, false, List, ◌∷◌}
use embedjson.Client.{null, bool, Client}
use embedjson.Common.{Position}
use embedjson.Config.{Config}
use embedjson.Lexer.Push.Contract.{Within}
use embedjson.Lexer.{
  Token, open_curly_bracket, close_curly_bracket, open_bracket, close_bracket, comma, colon,
  true_token, false_token, null_token,
}
use embedjson.Parser.Handlers.{
  token, token_in, token_expect_value, token_maybe_object_key, token_expect_colon,
  token_maybe_object_comma, token_expect_object_value, token_maybe_array_value,
  token_expect_array_value, token_maybe_array_comma,
}
use embedjson.Parser.Invariant.{IsParser, fits, within_object, within_array}
use embedjson.Parser.Safety.Moves.{
  Holding-state, open_object-Within, open_array-Within, again_array-Within, close_object-Within,
  close_array-Within, primitive-Within,
}
use embedjson.Parser.Safety.{Strict, error-Within}
use embedjson.Parser.Stack.Laws.{HasStack, brackets}
use embedjson.Parser.{
  ParserState, expect_value, maybe_object_key, expect_object_key, expect_colon, maybe_object_comma,
  expect_object_value, maybe_array_value, expect_array_value, maybe_array_comma, done, invalid,
  Bracket, curly, square, Parser,
}

top_curly :
    (stack : List Bracket)
    → within_object stack ≡ true
    → (rest : List Bracket) × (stack ≡ curly ∷ rest)
top_curly (curly ∷ rest) h = (rest, refl)
top_curly _ h = absurd (cc h)

top_square :
    (stack : List Bracket)
    → within_array stack ≡ true
    → (rest : List Bracket) × (stack ≡ square ∷ rest)
top_square (square ∷ rest) h = (rest, refl)
top_square _ h = absurd (cc h)

module _ {U D : Type 0} (cfg : Config) (client : Client U D) (strict : Strict client)
    (static : cfg.dynamic_stack ≡ false) (position : Position) (p : Parser U)
    (ok : HasStack cfg p) where
  expect_value-Within :
      (t : Token)
      → fits expect_value (brackets p) ≡ true
      → Within (IsParser cfg) (token_expect_value cfg client t position p)
  unfolding token_expect_value
  expect_value-Within open_curly_bracket f =
      open_object-Within cfg client strict static position p ok
  expect_value-Within open_bracket f = open_array-Within cfg client strict static position p ok
  expect_value-Within true_token f =
      primitive-Within cfg client strict static position (bool true) done p ok f
  expect_value-Within false_token f =
      primitive-Within cfg client strict static position (bool false) done p ok f
  expect_value-Within null_token f =
      primitive-Within cfg client strict static position null done p ok f
  expect_value-Within _ f = error-Within client strict _ position p (IsParser cfg)

  expect_object_value-Within :
      (t : Token)
      → fits expect_object_value (brackets p) ≡ true
      → Within (IsParser cfg) (token_expect_object_value cfg client t position p)
  unfolding token_expect_object_value
  expect_object_value-Within open_curly_bracket f =
      open_object-Within cfg client strict static position p ok
  expect_object_value-Within open_bracket f =
      open_array-Within cfg client strict static position p ok
  expect_object_value-Within true_token f =
      primitive-Within cfg client strict static position (bool true) maybe_object_comma p ok f
  expect_object_value-Within false_token f =
      primitive-Within cfg client strict static position (bool false) maybe_object_comma p ok f
  expect_object_value-Within null_token f =
      primitive-Within cfg client strict static position null maybe_object_comma p ok f
  expect_object_value-Within _ f = error-Within client strict _ position p (IsParser cfg)

  maybe_array_value-Within :
      (t : Token)
      → p.state ≡ maybe_array_value
      → fits maybe_array_value (brackets p) ≡ true
      → Within (IsParser cfg) (token_maybe_array_value cfg client t position p)
  unfolding token_maybe_array_value
  maybe_array_value-Within open_curly_bracket e f =
      open_object-Within cfg client strict static position p ok
  maybe_array_value-Within open_bracket e f =
      again_array-Within cfg client strict static position p ok e
  maybe_array_value-Within close_bracket e f =
      let (rest, top) = top_square (brackets p) f in
      close_array-Within cfg client strict static position maybe_object_key p rest ok top refl
  maybe_array_value-Within true_token e f =
      primitive-Within cfg client strict static position (bool true) maybe_array_comma p ok f
  maybe_array_value-Within false_token e f =
      primitive-Within cfg client strict static position (bool false) maybe_array_comma p ok f
  maybe_array_value-Within null_token e f =
      primitive-Within cfg client strict static position null maybe_array_comma p ok f
  maybe_array_value-Within _ e f = error-Within client strict _ position p (IsParser cfg)

  expect_array_value-Within :
      (t : Token)
      → fits expect_array_value (brackets p) ≡ true
      → Within (IsParser cfg) (token_expect_array_value cfg client t position p)
  unfolding token_expect_array_value
  expect_array_value-Within open_curly_bracket f =
      open_object-Within cfg client strict static position p ok
  expect_array_value-Within open_bracket f =
      open_array-Within cfg client strict static position p ok
  expect_array_value-Within true_token f =
      primitive-Within cfg client strict static position (bool true) maybe_array_comma p ok f
  expect_array_value-Within false_token f =
      primitive-Within cfg client strict static position (bool false) maybe_array_comma p ok f
  expect_array_value-Within null_token f =
      primitive-Within cfg client strict static position null maybe_array_comma p ok f
  expect_array_value-Within _ f = error-Within client strict _ position p (IsParser cfg)

  maybe_object_key-Within :
      (t : Token)
      → fits maybe_object_key (brackets p) ≡ true
      → Within (IsParser cfg) (token_maybe_object_key cfg client t position p)
  unfolding token_maybe_object_key
  maybe_object_key-Within close_curly_bracket f =
      let (rest, top) = top_curly (brackets p) f in
      close_object-Within cfg client strict static position p rest ok top
  maybe_object_key-Within _ f = error-Within client strict _ position p (IsParser cfg)

  expect_colon-Within :
      (t : Token)
      → fits expect_colon (brackets p) ≡ true
      → Within (IsParser cfg) (token_expect_colon cfg client t position p)
  unfolding token_expect_colon
  expect_colon-Within colon f = Holding-state cfg p expect_object_value (ok, refl) f
  expect_colon-Within _ f = error-Within client strict _ position p (IsParser cfg)

  maybe_object_comma-Within :
      (t : Token)
      → fits maybe_object_comma (brackets p) ≡ true
      → Within (IsParser cfg) (token_maybe_object_comma cfg client t position p)
  unfolding token_maybe_object_comma
  maybe_object_comma-Within comma f = Holding-state cfg p expect_object_key (ok, refl) f
  maybe_object_comma-Within close_curly_bracket f =
      let (rest, top) = top_curly (brackets p) f in
      close_object-Within cfg client strict static position p rest ok top
  maybe_object_comma-Within _ f = error-Within client strict _ position p (IsParser cfg)

  maybe_array_comma-Within :
      (t : Token)
      → fits maybe_array_comma (brackets p) ≡ true
      → Within (IsParser cfg) (token_maybe_array_comma cfg client t position p)
  unfolding token_maybe_array_comma
  maybe_array_comma-Within comma f = Holding-state cfg p expect_array_value (ok, refl) f
  maybe_array_comma-Within close_bracket f =
      let (rest, top) = top_square (brackets p) f in
      close_array-Within cfg client strict static position maybe_object_comma p rest ok top refl
  maybe_array_comma-Within _ f = error-Within client strict _ position p (IsParser cfg)

  token_in-Within :
      (st : ParserState) (t : Token)
      → p.state ≡ st
      → fits st (brackets p) ≡ true
      → Within (IsParser cfg) (token_in cfg client st t position p)
  unfolding token_in
  token_in-Within expect_value t e f = expect_value-Within t f
  token_in-Within maybe_object_key t e f = maybe_object_key-Within t f
  token_in-Within expect_colon t e f = expect_colon-Within t f
  token_in-Within maybe_object_comma t e f = maybe_object_comma-Within t f
  token_in-Within expect_object_value t e f = expect_object_value-Within t f
  token_in-Within expect_array_value t e f = expect_array_value-Within t f
  token_in-Within maybe_array_comma t e f = maybe_array_comma-Within t f
  token_in-Within maybe_array_value t e f = maybe_array_value-Within t e f
  token_in-Within expect_object_key t e f = error-Within client strict _ position p (IsParser cfg)
  token_in-Within done t e f = error-Within client strict _ position p (IsParser cfg)
  token_in-Within invalid t e f = absurd (cc f)

pub token-Within :
    {U D : Type 0} (cfg : Config) (client : Client U D)
    → Strict client
    → cfg.dynamic_stack ≡ false
    → (t : Token) (position : Position) (p : Parser U) → IsParser cfg p
    → Within (IsParser cfg) (token cfg client t position p)
token-Within cfg client strict static t position p h =
    token_in-Within cfg client strict static position p h.has_stack p.state t refl h.fit
