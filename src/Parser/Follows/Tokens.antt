-- ===== src/Parser/Follows/Tokens.antt =====
-- `embedjson_token` follows the automaton, and where it does not.
use embedjson.Base.{◌*◌, ◌<◌, ◌≡◌, refl, true, false, List, none, some, length, arith}
use embedjson.Client.{Client}
use embedjson.Common
use embedjson.Common.{ErrorCode, Position, Outcome, ret}
use embedjson.Config.{Config}
use embedjson.Lexer.{Token, close_curly_bracket, close_bracket, comma, colon}
use embedjson.Parser.Automaton.{Symbol, fsm, symbol}
use embedjson.Parser.Follows.Arrays.{
  maybe_array_value-follows, expect_array_value-follows, maybe_array_comma-follows,
}
use embedjson.Parser.Follows.Objects.{
  expect_value-follows, maybe_object_key-follows, expect_colon-follows, maybe_object_comma-follows,
  expect_object_value-follows,
}
use embedjson.Parser.Follows.{empty_array_in_object}
use embedjson.Parser.Handlers.{
  token_in, token, token_expect_value, token_maybe_object_key, token_expect_colon,
  token_maybe_object_comma, token_expect_object_value, token_maybe_array_value,
  token_expect_array_value, token_maybe_array_comma,
}
use embedjson.Parser.Invariant.{Obliging, IsParser, fits}
use embedjson.Parser.Moves.{Moves}
use embedjson.Parser.Stack.Laws.{HasStack, brackets}
use embedjson.Parser.{
  ParserState, expect_value, maybe_object_key, expect_object_key, expect_colon, maybe_object_comma,
  expect_object_value, maybe_array_value, expect_array_value, maybe_array_comma, done, invalid,
  Bracket, Parser, error,
}

-- An edge of the automaton keeps state and stack in step.
fsm-fits :
    (st : ParserState) (stack : List Bracket) (a : Symbol) {st' : ParserState}
    {stack' : List Bracket}
    → fits st stack ≡ true
    → fsm st stack a ≡ some (st', stack')
    → fits st' stack' ≡ true
unfolding fsm
fsm-fits st stack a h e = ground arith

-- The code of the error for a token that cannot stand where a value is wanted.
abbrev pub value_code : Token → ErrorCode
value_code close_curly_bracket = Common.unexp_close_curly
value_code close_bracket = Common.unexp_close_bracket
value_code comma = Common.unexp_comma
value_code colon = Common.unexp_colon
value_code _ = Common.internal_error

-- The code of the error for a token that the automaton has no edge for.
abbrev pub code_for : ParserState → Token → ErrorCode
code_for expect_value t = value_code t
code_for maybe_object_key t = Common.exp_object_key
code_for expect_object_key t = Common.exp_object_key
code_for expect_colon t = Common.exp_colon
code_for maybe_object_comma t = Common.exp_comma_or_close_curly
code_for expect_object_value t = value_code t
code_for maybe_array_value t = value_code t
code_for expect_array_value t = value_code t
code_for maybe_array_comma t = Common.exp_comma_or_close_bracket
code_for done t = Common.excessive_input
code_for invalid t = Common.internal_error

-- No token is a key, and nothing follows the document.
no_edge :
    (stack : List Bracket) (t : Token)
    → (fsm expect_object_key stack (symbol t) ≡ none)
      × (fsm done stack (symbol t) ≡ none)
      × (fsm invalid stack (symbol t) ≡ none)
unfolding fsm
no_edge stack t = ground arith

module _ {U D : Type 0} (cfg : Config) (client : Client U D) (p : Parser U) (position : Position)
    (t : Token) where
  token_in-Moves :
      Obliging client
      → HasStack cfg p
      → p.stack_size < 8 * length p.stack
      → (st : ParserState) {st' : ParserState} {stack' : List Bracket} → p.state ≡ st
      → fsm st (brackets p) (symbol t) ≡ some (st', stack')
      → empty_array_in_object st (brackets p) t ≡ false
      → Moves cfg st' stack' (token_in cfg client st t position p)
  unfolding token_in
  token_in-Moves o ok room expect_value in_state e r =
      expect_value-follows cfg client o p ok room position t e
  token_in-Moves o ok room maybe_object_key in_state e r =
      maybe_object_key-follows cfg client o p ok room position t e
  token_in-Moves o ok room expect_object_key in_state e r = cc (no_edge (brackets p) t).0
  token_in-Moves o ok room expect_colon in_state e r =
      expect_colon-follows cfg client o p ok room position t e
  token_in-Moves o ok room maybe_object_comma in_state e r =
      maybe_object_comma-follows cfg client o p ok room position t e
  token_in-Moves o ok room expect_object_value in_state e r =
      expect_object_value-follows cfg client o p ok room position t e
  token_in-Moves o ok room maybe_array_value in_state e r =
      maybe_array_value-follows cfg client o p ok room position t in_state e r
  token_in-Moves o ok room expect_array_value in_state e r =
      expect_array_value-follows cfg client o p ok room position t e
  token_in-Moves o ok room maybe_array_comma in_state e r =
      maybe_array_comma-follows cfg client o p ok room position t e
  token_in-Moves o ok room done in_state e r = cc (no_edge (brackets p) t).1
  token_in-Moves o ok room invalid in_state e r = cc (no_edge (brackets p) t).2

  token_in-rejects :
      (st : ParserState)
      → fits st (brackets p) ≡ true
      → fsm st (brackets p) (symbol t) ≡ none
      → token_in cfg client st t position p ≡ error client (code_for st t) position p
  unfolding token_in fsm token_expect_value token_maybe_object_key token_expect_colon
      token_maybe_object_comma token_expect_object_value token_maybe_array_value
      token_expect_array_value token_maybe_array_comma
  token_in-rejects st f e = ground arith

  -- Where no callback of the user fails, the stack has room and the automaton of
  -- doc/syntax-parser-fsm.dot has an edge for the token, `embedjson_token` returns 0 and leaves a
  -- parser in the state and with the brackets that the edge leads to, which satisfies the invariant
  -- again. The one edge left out is `]` behind `[` in an object.
  pub token-follows-fsm :
      {st' : ParserState} {stack' : List Bracket}
      → Obliging client
      → IsParser cfg p
      → p.stack_size < 8 * length p.stack
      → fsm p.state (brackets p) (symbol t) ≡ some (st', stack')
      → empty_array_in_object p.state (brackets p) t ≡ false
      → (q : Parser U) × (token cfg client t position p ≡ ret 0 q)
        × (q.state ≡ st')
        × (brackets q ≡ stack')
        × IsParser cfg q
  token-follows-fsm o ok room e r =
      let m = token_in-Moves o ok.has_stack room p.state refl e r in
      let fit : fits m.after.state (brackets m.after) ≡ true =
        rw (m.state_eq, m.brackets_eq) (fsm-fits p.state (brackets p) (symbol t) ok.fit e) in
      (m.after, m.returns, m.state_eq, m.brackets_eq, record { has_stack = m.has_stack; fit = fit })

  -- Where the automaton has no edge for the token, a parser that satisfies the invariant is not
  -- changed by `embedjson_token` itself: the token's error is reported once, at the position of the
  -- token and with the code of `code_for`, and what that returns is the result.
  pub token-rejects :
      IsParser cfg p
      → fsm p.state (brackets p) (symbol t) ≡ none
      → token cfg client t position p ≡ error client (code_for p.state t) position p
  token-rejects ok e = token_in-rejects p.state ok.fit e
