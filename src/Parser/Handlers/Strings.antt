-- ===== src/Parser/Handlers/Strings.antt =====
-- The handlers of parser.c for strings: `embedjson_tokenc`, `embedjson_tokenc_begin` and
-- `embedjson_tokenc_end`.
use embedjson.Base.{ℕ, List, Option, none, some}
use embedjson.Client.{string_begin, string_chunk, string_end, Client}
use embedjson.Common
use embedjson.Common.{Position, Outcome, fault}
use embedjson.Config.{Config}
use embedjson.Parser.{
  ParserState, expect_value, maybe_object_key, expect_object_key, expect_colon, maybe_object_comma,
  expect_object_value, maybe_array_value, expect_array_value, maybe_array_comma, done, invalid,
  Parser, call, error,
}
use embedjson.Parser.Handlers.{report_invalid}
use embedjson.Parser.Handlers.Scalars.{check_state}

-- `next_state` of `embedjson_tokenc_end`; INVALID is an index out of bounds.
abbrev pub next_after_string : ParserState → Option ParserState
next_after_string expect_value = some done
next_after_string maybe_object_key = some expect_colon
next_after_string expect_object_key = some expect_colon
next_after_string expect_colon = some invalid
next_after_string maybe_object_comma = some invalid
next_after_string expect_object_value = some maybe_object_comma
next_after_string maybe_array_value = some maybe_array_comma
next_after_string expect_array_value = some maybe_array_comma
next_after_string maybe_array_comma = some invalid
next_after_string done = some invalid
next_after_string invalid = none

module _ {U D : Type 0} (cfg : Config) (client : Client U D) where
  -- `embedjson_tokenc`; the position of its self-check is the chunk.
  unfoldable pub tokenc : Position → List ℕ → Parser U → Outcome (Parser U)
  tokenc position chunk p = check_state cfg client position p (call client (string_chunk chunk) p)

  -- The `switch` of `embedjson_tokenc_begin`.
  unfoldable pub tokenc_begin_in : ParserState → Position → Parser U → Outcome (Parser U)
  tokenc_begin_in expect_value position p = call client string_begin p
  tokenc_begin_in maybe_object_key position p = call client string_begin p
  tokenc_begin_in expect_object_key position p = call client string_begin p
  tokenc_begin_in expect_colon position p = error client Common.exp_colon position p
  tokenc_begin_in maybe_object_comma position p =
      error client Common.exp_comma_or_close_curly position p
  tokenc_begin_in expect_object_value position p = call client string_begin p
  tokenc_begin_in maybe_array_value position p = call client string_begin p
  tokenc_begin_in expect_array_value position p = call client string_begin p
  tokenc_begin_in maybe_array_comma position p =
      error client Common.exp_comma_or_close_bracket position p
  tokenc_begin_in done position p = error client Common.excessive_input position p
  tokenc_begin_in invalid position p = report_invalid cfg client position p

  abbrev pub tokenc_begin : Position → Parser U → Outcome (Parser U)
  tokenc_begin position p = tokenc_begin_in p.state position p

  -- `embedjson_tokenc_end`
  unfoldable pub tokenc_end : Position → Parser U → Outcome (Parser U)
  tokenc_end position p = check_state cfg client position p (elim (next_after_string p.state) [
    | none ↦ fault
    | some next ↦
        let q = record p { state = next } in
        check_state cfg client position q (call client string_end q)
  ])
