-- ===== src/Parser/Values.antt =====
-- The handlers of parser.c for strings and numbers against the automaton of
-- doc/syntax-parser-fsm.dot.
use embedjson.Base.{◌≡◌, refl, true, List, none, some, arith}
use embedjson.Base.Ints.{ℤ}
use embedjson.Client.{Client, int, double, string_begin, string_end}
use embedjson.Common
use embedjson.Common.{ErrorCode, Position}
use embedjson.Config.{Config}
use embedjson.Parser.Automaton.{fsm, string, primitive}
use embedjson.Parser.Handlers.Scalars.{tokeni_in, tokenf_in, tokeni, tokenf, check_state}
use embedjson.Parser.Handlers.Strings.{tokenc_begin_in, tokenc_begin, tokenc_end}
use embedjson.Parser.Invariant.{IsParser, fits}
use embedjson.Parser.Stack.Laws.{brackets}
use embedjson.Parser.{
  ParserState, maybe_object_key, expect_object_key, expect_colon, maybe_object_comma,
  maybe_array_comma, done, Bracket, Parser, call, error,
}

-- The code of the error for a string out of place.
abbrev pub string_code : ParserState → ErrorCode
string_code expect_colon = Common.exp_colon
string_code maybe_object_comma = Common.exp_comma_or_close_curly
string_code maybe_array_comma = Common.exp_comma_or_close_bracket
string_code done = Common.excessive_input
string_code _ = Common.internal_error

-- The code of the error for a number out of place. Behind a value in an object it names the bracket
-- of an array, and behind one in an array the bracket of an object.
abbrev pub number_code : ParserState → ErrorCode
number_code maybe_object_key = Common.exp_object_key_or_close_curly
number_code expect_object_key = Common.exp_object_key
number_code expect_colon = Common.exp_colon
number_code maybe_object_comma = Common.exp_comma_or_close_bracket
number_code maybe_array_comma = Common.exp_comma_or_close_curly
number_code done = Common.excessive_input
number_code _ = Common.internal_error

module _ {U D : Type 0} (cfg : Config) (client : Client U D) (p : Parser U) where
  string_in-follows :
      (st : ParserState) {st' : ParserState} {stack' : List Bracket}
      → p.state ≡ st
      → fsm st (brackets p) string ≡ some (st', stack')
      → (before after : Position) (u : U)
      → (tokenc_begin_in cfg client st before p ≡ call client string_begin p)
        × (tokenc_end cfg client after (record p { user = u })
            ≡ call client string_end (record p { state = st'; user = u }))
        × (stack' ≡ brackets p)
  unfolding fsm tokenc_begin_in tokenc_end check_state
  string_in-follows st in_state e before after u = ground arith

  -- Where the automaton has an edge for a string, `embedjson_tokenc_begin` calls the user's
  -- `embedjson_string_begin` in the state as it is, and at the end of the string, whatever the user's
  -- state has become, `embedjson_tokenc_end` enters the state that the edge leads to and calls
  -- `embedjson_string_end` there. The open brackets stay those of the edge.
  pub string-follows-fsm :
      {st' : ParserState} {stack' : List Bracket}
      → fsm p.state (brackets p) string ≡ some (st', stack')
      → (before after : Position) (u : U)
      → (tokenc_begin cfg client before p ≡ call client string_begin p)
        × (tokenc_end cfg client after (record p { user = u })
            ≡ call client string_end (record p { state = st'; user = u }))
        × (stack' ≡ brackets p)
  string-follows-fsm e = string_in-follows p.state refl e

  number_in-follows :
      (st : ParserState) {st' : ParserState} {stack' : List Bracket}
      → fsm st (brackets p) primitive ≡ some (st', stack')
      → (position : Position) (n : ℤ) (x : D)
      → (tokeni_in cfg client st n position p ≡ call client (int n) (record p { state = st' }))
        × (tokenf_in cfg client st x position p ≡ call client (double x) (record p { state = st' }))
        × (stack' ≡ brackets p)
  unfolding fsm tokeni_in tokenf_in
  number_in-follows st e position n x = ground arith

  -- Where the automaton has an edge for a primitive, `embedjson_tokeni` and `embedjson_tokenf` enter
  -- the state that the edge leads to and hand the value to the user there. The open brackets stay
  -- those of the edge.
  pub number-follows-fsm :
      {st' : ParserState} {stack' : List Bracket}
      → fsm p.state (brackets p) primitive ≡ some (st', stack')
      → (position : Position) (n : ℤ) (x : D)
      → (tokeni cfg client n position p ≡ call client (int n) (record p { state = st' }))
        × (tokenf cfg client x position p ≡ call client (double x) (record p { state = st' }))
        × (stack' ≡ brackets p)
  number-follows-fsm e = number_in-follows p.state e

  value_in-rejects :
      (st : ParserState)
      → fits st (brackets p) ≡ true
      → (position : Position) (n : ℤ) (x : D)
      → (fsm st (brackets p) string ≡ none
          → tokenc_begin_in cfg client st position p ≡ error client (string_code st) position p)
        × (fsm st (brackets p) primitive ≡ none
            → (tokeni_in cfg client st n position p ≡ error client (number_code st) position p)
              × (tokenf_in cfg client st x position p ≡ error client (number_code st) position p))
  unfolding fsm tokenc_begin_in tokeni_in tokenf_in
  value_in-rejects st f position n x = (λ e. ground arith, λ e. ground arith)

  -- Where the automaton has no edge for a string, a parser that satisfies the invariant reports the
  -- code of `string_code`; where it has none for a primitive, both handlers of numbers report the
  -- code of `number_code`. Nothing else of the parser changes.
  pub value-rejects :
      IsParser cfg p
      → (position : Position) (n : ℤ) (x : D)
      → (fsm p.state (brackets p) string ≡ none
          → tokenc_begin cfg client position p ≡ error client (string_code p.state) position p)
        × (fsm p.state (brackets p) primitive ≡ none
            → (tokeni cfg client n position p ≡ error client (number_code p.state) position p)
              × (tokenf cfg client x position p ≡ error client (number_code p.state) position p))
  value-rejects ok = value_in-rejects p.state ok.fit
