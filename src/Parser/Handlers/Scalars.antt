-- ===== src/Parser/Handlers/Scalars.antt =====
-- The handlers of parser.c for numbers: `embedjson_tokeni`, `embedjson_tokenf` and
-- `embedjson_tokenbn_begin`, `embedjson_tokenbn`, `embedjson_tokenbn_end`.
use embedjson.Base.{ℕ, List, Bool, Option, none, some, if◌then◌else◌}
use embedjson.Base.Ints.{ℤ}
use embedjson.Client.{int, double, bignum_begin, bignum_chunk, bignum_end, Client}
use embedjson.Common
use embedjson.Common.{ErrorCode, Position, null_position, Outcome, ret, fault}
use embedjson.Config.{Config}
use embedjson.Parser.{
  ParserState, expect_value, maybe_object_key, expect_object_key, expect_colon, maybe_object_comma,
  expect_object_value, maybe_array_value, expect_array_value, maybe_array_comma, done, invalid,
  Parser, call, error,
}
use embedjson.Parser.Handlers.{report_invalid}

abbrev pub is_invalid : ParserState → Bool
is_invalid invalid = Bool.true
is_invalid _ = Bool.false

module _ {U D : Type 0} (cfg : Config) (client : Client U D) where
  -- EMBEDJSON_CHECK_STATE, with what follows it
  unfoldable pub check_state : Position → Parser U → Outcome (Parser U) → Outcome (Parser U)
  check_state position p rest =
      if cfg.debug
      then if is_invalid p.state then error client Common.internal_error position p else rest
      else rest

  -- The `switch` of `embedjson_tokeni`. Here the state is changed before the callback, whatever
  -- that returns.
  unfoldable pub tokeni_in : ParserState → ℤ → Position → Parser U → Outcome (Parser U)
  tokeni_in expect_value v position p = call client (int v) (record p { state = done })
  tokeni_in maybe_object_key v position p =
      error client Common.exp_object_key_or_close_curly position p
  tokeni_in expect_object_key v position p = error client Common.exp_object_key position p
  tokeni_in expect_colon v position p = error client Common.exp_colon position p
  tokeni_in maybe_object_comma v position p =
      error client Common.exp_comma_or_close_bracket position p
  tokeni_in expect_object_value v position p =
      call client (int v) (record p { state = maybe_object_comma })
  tokeni_in maybe_array_value v position p =
      call client (int v) (record p { state = maybe_array_comma })
  tokeni_in expect_array_value v position p =
      call client (int v) (record p { state = maybe_array_comma })
  tokeni_in maybe_array_comma v position p = error client Common.exp_comma_or_close_curly position p
  tokeni_in done v position p = error client Common.excessive_input position p
  tokeni_in invalid v position p = report_invalid cfg client position p

  abbrev pub tokeni : ℤ → Position → Parser U → Outcome (Parser U)
  tokeni v position p = tokeni_in p.state v position p

  -- The `switch` of `embedjson_tokenf`.
  unfoldable pub tokenf_in : ParserState → D → Position → Parser U → Outcome (Parser U)
  tokenf_in expect_value v position p = call client (double v) (record p { state = done })
  tokenf_in maybe_object_key v position p =
      error client Common.exp_object_key_or_close_curly position p
  tokenf_in expect_object_key v position p = error client Common.exp_object_key position p
  tokenf_in expect_colon v position p = error client Common.exp_colon position p
  tokenf_in maybe_object_comma v position p =
      error client Common.exp_comma_or_close_bracket position p
  tokenf_in expect_object_value v position p =
      call client (double v) (record p { state = maybe_object_comma })
  tokenf_in maybe_array_value v position p =
      call client (double v) (record p { state = maybe_array_comma })
  tokenf_in expect_array_value v position p =
      call client (double v) (record p { state = maybe_array_comma })
  tokenf_in maybe_array_comma v position p = error client Common.exp_comma_or_close_curly position p
  tokenf_in done v position p = error client Common.excessive_input position p
  tokenf_in invalid v position p = report_invalid cfg client position p

  abbrev pub tokenf : D → Position → Parser U → Outcome (Parser U)
  tokenf v position p = tokenf_in p.state v position p

  -- The `switch` of `embedjson_tokenbn_begin`.
  unfoldable pub tokenbn_begin_in : ParserState → Position → ℤ → Parser U → Outcome (Parser U)
  tokenbn_begin_in expect_value position v p =
      call client (bignum_begin v) (record p { state = done })
  tokenbn_begin_in maybe_object_key position v p =
      error client Common.exp_object_key_or_close_curly position p
  tokenbn_begin_in expect_object_key position v p = error client Common.exp_object_key position p
  tokenbn_begin_in expect_colon position v p = error client Common.exp_colon position p
  tokenbn_begin_in maybe_object_comma position v p =
      error client Common.exp_comma_or_close_bracket position p
  tokenbn_begin_in expect_object_value position v p =
      call client (bignum_begin v) (record p { state = maybe_object_comma })
  tokenbn_begin_in maybe_array_value position v p =
      call client (bignum_begin v) (record p { state = maybe_array_comma })
  tokenbn_begin_in expect_array_value position v p =
      call client (bignum_begin v) (record p { state = maybe_array_comma })
  tokenbn_begin_in maybe_array_comma position v p =
      error client Common.exp_comma_or_close_curly position p
  tokenbn_begin_in done position v p = error client Common.excessive_input position p
  tokenbn_begin_in invalid position v p = report_invalid cfg client position p

  abbrev pub tokenbn_begin : Position → ℤ → Parser U → Outcome (Parser U)
  tokenbn_begin position v p = tokenbn_begin_in p.state position v p

  -- `embedjson_tokenbn`; the position of its self-check is the chunk.
  unfoldable pub tokenbn : Position → List ℕ → Parser U → Outcome (Parser U)
  tokenbn position chunk p = check_state position p (call client (bignum_chunk chunk) p)

  -- `next_state` of `embedjson_tokenbn_end`; INVALID is an index out of bounds.
  abbrev pub next_after_bignum : ParserState → Option ParserState
  next_after_bignum expect_value = some done
  next_after_bignum maybe_object_key = some invalid
  next_after_bignum expect_object_key = some invalid
  next_after_bignum expect_colon = some invalid
  next_after_bignum maybe_object_comma = some invalid
  next_after_bignum expect_object_value = some maybe_object_comma
  next_after_bignum maybe_array_value = some maybe_array_comma
  next_after_bignum expect_array_value = some maybe_array_comma
  next_after_bignum maybe_array_comma = some invalid
  next_after_bignum done = some invalid
  next_after_bignum invalid = none

  -- `embedjson_tokenbn_end`
  unfoldable pub tokenbn_end : Position → Parser U → Outcome (Parser U)
  tokenbn_end position p = check_state position p (elim (next_after_bignum p.state) [
    | none ↦ fault
    | some next ↦
        let q = record p { state = next } in check_state position q (call client bignum_end q)
  ])
