-- ===== src/Parser/Handlers.antt =====
-- `embedjson_token` of parser.c, one function for each `case` on the parser's state. Its other
-- handlers stand in the children.
pub mod Scalars
pub mod Strings
use embedjson.Base.{Bool, true, false, none, some, if◌then◌else◌}
use embedjson.Client.{Event, null, bool, object_begin, object_end, array_begin, array_end, Client}
use embedjson.Common
use embedjson.Common.{ErrorCode, Position, Outcome, ret, fault, ◌>>=◌}
use embedjson.Config.{Config}
use embedjson.Lexer.{
  Token, open_curly_bracket, close_curly_bracket, open_bracket, close_bracket, comma, colon,
  true_token, false_token, null_token,
}
use embedjson.Parser.{
  ParserState, expect_value, maybe_object_key, expect_object_key, expect_colon, maybe_object_comma,
  expect_object_value, maybe_array_value, expect_array_value, maybe_array_comma, done, invalid,
  Bracket, curly, square, Parser, call, error,
}
use embedjson.Parser.Stack.{stack_empty, stack_top, stack_pop, stack_push}

abbrev pub is_curly : Bracket → Bool
is_curly curly = true
is_curly square = false

abbrev pub same_bracket : Bracket → Bracket → Bool
same_bracket curly b = is_curly b
same_bracket square b = if is_curly b then false else true

module _ {U : Type 0} where
  -- `parser->state = state`, and `return 0` behind the `switch`
  abbrev pub enter : ParserState → Parser U → Outcome (Parser U)
  enter state p = ret 0 (record p { state = state })

  -- `stack_pop`, then the state after a closing bracket, by what is now on top.
  unfoldable pub closed : ParserState → ParserState → Parser U → Outcome (Parser U)
  closed in_object in_array p =
      let q = stack_pop p in
      if stack_empty q then enter done q else elim (stack_top q) [
        | none ↦ fault
        | some curly ↦ enter in_object q
        | some square ↦ enter in_array q
      ]

module _ {U D : Type 0} (cfg : Config) (client : Client U D) where
  -- The self-check at a closing bracket under EMBEDJSON_DEBUG, with what follows it.
  unfoldable pub check_top : Bracket → Position → Parser U → Outcome (Parser U) → Outcome (Parser U)
  check_top b position p rest =
      if cfg.debug
      then if stack_empty p
        then error client Common.internal_error position p
        else elim (stack_top p) [
          | none ↦ fault
          | some t ↦
              if same_bracket b t then rest else error client Common.internal_error position p
        ]
      else rest

  -- The `case`s of an opening bracket.
  unfoldable pub open_object : Parser U → Outcome (Parser U)
  open_object p = do
    p' ← stack_push cfg client curly p
    p' ← call client object_begin p'
    enter maybe_object_key p'

  unfoldable pub open_array : Parser U → Outcome (Parser U)
  open_array p = do
    p' ← stack_push cfg client square p
    p' ← call client array_begin p'
    enter maybe_array_value p'

  -- `}` in MAYBE_OBJECT_KEY and MAYBE_OBJECT_COMMA
  unfoldable pub close_object : Position → Parser U → Outcome (Parser U)
  close_object position p =
      check_top curly position p
        (do p' ← call client object_end p; closed maybe_object_comma maybe_array_comma p')

  -- `]`; the argument is the state taken inside an object, in which the two `case`s differ.
  unfoldable pub close_array : ParserState → Position → Parser U → Outcome (Parser U)
  close_array in_object position p =
      check_top square position p
        (do p' ← call client array_end p; closed in_object maybe_array_comma p')

  -- `true`, `false` and `null`
  abbrev pub primitive : Event D → ParserState → Parser U → Outcome (Parser U)
  primitive e next p = do p' ← call client e p; enter next p'

  unfoldable pub token_expect_value : Token → Position → Parser U → Outcome (Parser U)
  token_expect_value open_curly_bracket position p = open_object p
  token_expect_value close_curly_bracket position p =
      error client Common.unexp_close_curly position p
  token_expect_value open_bracket position p = open_array p
  token_expect_value close_bracket position p = error client Common.unexp_close_bracket position p
  token_expect_value comma position p = error client Common.unexp_comma position p
  token_expect_value colon position p = error client Common.unexp_colon position p
  token_expect_value true_token position p = primitive (bool true) done p
  token_expect_value false_token position p = primitive (bool false) done p
  token_expect_value null_token position p = primitive null done p

  unfoldable pub token_maybe_object_key : Token → Position → Parser U → Outcome (Parser U)
  token_maybe_object_key close_curly_bracket position p = close_object position p
  token_maybe_object_key _ position p = error client Common.exp_object_key position p

  unfoldable pub token_expect_colon : Token → Position → Parser U → Outcome (Parser U)
  token_expect_colon colon position p = enter expect_object_value p
  token_expect_colon _ position p = error client Common.exp_colon position p

  unfoldable pub token_maybe_object_comma : Token → Position → Parser U → Outcome (Parser U)
  token_maybe_object_comma comma position p = enter expect_object_key p
  token_maybe_object_comma close_curly_bracket position p = close_object position p
  token_maybe_object_comma _ position p = error client Common.exp_comma_or_close_curly position p

  unfoldable pub token_expect_object_value : Token → Position → Parser U → Outcome (Parser U)
  token_expect_object_value open_curly_bracket position p = open_object p
  token_expect_object_value close_curly_bracket position p =
      error client Common.unexp_close_curly position p
  token_expect_object_value open_bracket position p = open_array p
  token_expect_object_value close_bracket position p =
      error client Common.unexp_close_bracket position p
  token_expect_object_value comma position p = error client Common.unexp_comma position p
  token_expect_object_value colon position p = error client Common.unexp_colon position p
  token_expect_object_value true_token position p = primitive (bool true) maybe_object_comma p
  token_expect_object_value false_token position p = primitive (bool false) maybe_object_comma p
  token_expect_object_value null_token position p = primitive null maybe_object_comma p

  -- `[` leaves the state as it is, which is MAYBE_ARRAY_VALUE already. `]` enters
  -- MAYBE_OBJECT_KEY where the array is the value of an object's key.
  unfoldable pub token_maybe_array_value : Token → Position → Parser U → Outcome (Parser U)
  token_maybe_array_value open_curly_bracket position p = open_object p
  token_maybe_array_value close_curly_bracket position p =
      error client Common.unexp_close_curly position p
  token_maybe_array_value open_bracket position p = do
    p' ← stack_push cfg client square p
    call client array_begin p'
  token_maybe_array_value close_bracket position p = close_array maybe_object_key position p
  token_maybe_array_value comma position p = error client Common.unexp_comma position p
  token_maybe_array_value colon position p = error client Common.unexp_colon position p
  token_maybe_array_value true_token position p = primitive (bool true) maybe_array_comma p
  token_maybe_array_value false_token position p = primitive (bool false) maybe_array_comma p
  token_maybe_array_value null_token position p = primitive null maybe_array_comma p

  unfoldable pub token_expect_array_value : Token → Position → Parser U → Outcome (Parser U)
  token_expect_array_value open_curly_bracket position p = open_object p
  token_expect_array_value close_curly_bracket position p =
      error client Common.unexp_close_curly position p
  token_expect_array_value open_bracket position p = open_array p
  token_expect_array_value close_bracket position p =
      error client Common.unexp_close_bracket position p
  token_expect_array_value comma position p = error client Common.unexp_comma position p
  token_expect_array_value colon position p = error client Common.unexp_colon position p
  token_expect_array_value true_token position p = primitive (bool true) maybe_array_comma p
  token_expect_array_value false_token position p = primitive (bool false) maybe_array_comma p
  token_expect_array_value null_token position p = primitive null maybe_array_comma p

  unfoldable pub token_maybe_array_comma : Token → Position → Parser U → Outcome (Parser U)
  token_maybe_array_comma comma position p = enter expect_array_value p
  token_maybe_array_comma close_bracket position p = close_array maybe_object_comma position p
  token_maybe_array_comma _ position p = error client Common.exp_comma_or_close_bracket position p

  -- The last `case`, `PARSER_STATE_INVALID`, is compiled in under EMBEDJSON_DEBUG only.
  unfoldable pub report_invalid : Position → Parser U → Outcome (Parser U)
  report_invalid position p =
      if cfg.debug then error client Common.internal_error position p else ret 0 p

  unfoldable pub token_in : ParserState → Token → Position → Parser U → Outcome (Parser U)
  token_in expect_value t position p = token_expect_value t position p
  token_in maybe_object_key t position p = token_maybe_object_key t position p
  token_in expect_object_key t position p = error client Common.exp_object_key position p
  token_in expect_colon t position p = token_expect_colon t position p
  token_in maybe_object_comma t position p = token_maybe_object_comma t position p
  token_in expect_object_value t position p = token_expect_object_value t position p
  token_in maybe_array_value t position p = token_maybe_array_value t position p
  token_in expect_array_value t position p = token_expect_array_value t position p
  token_in maybe_array_comma t position p = token_maybe_array_comma t position p
  token_in done t position p = error client Common.excessive_input position p
  token_in invalid t position p = report_invalid position p

  -- `embedjson_token`
  abbrev pub token : Token → Position → Parser U → Outcome (Parser U)
  token t position p = token_in p.state t position p
