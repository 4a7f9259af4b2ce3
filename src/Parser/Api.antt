-- ===== src/Parser/Api.antt =====
-- The functions of parser.c that the user calls, `embedjson_push` and `embedjson_finalize`, with
-- the parser's handlers as the lexer's sink.
use embedjson.Base.{ℕ, Bool, true, false, not, ◌&&◌, List, Option, some, if◌then◌else◌}
use embedjson.Client.{Client}
use embedjson.Common
use embedjson.Common.{at, null_position, Outcome, ret, fault, ◌>>=◌}
use embedjson.Config.{Config}
use embedjson.Lexer.Double.{Doubles}
use embedjson.Lexer.Push
use embedjson.Lexer.{Lexer, Sink}
use embedjson.Parser.Handlers.Scalars.{tokeni, tokenf, tokenbn_begin, tokenbn, tokenbn_end}
use embedjson.Parser.Handlers.Strings.{tokenc, tokenc_begin, tokenc_end}
use embedjson.Parser.Handlers.{token}
use embedjson.Parser.{ParserState, expect_value, done, Parser, error}

abbrev pub is_done : ParserState → Bool
is_done done = true
is_done _ = false

-- A parser after `memset(&parser, 0, sizeof(parser))`, on the given stack.
abbrev pub initial_parser : {U : Type 0} → List ℕ → ℕ → U → Parser U
initial_parser stack cap user = record {
  state = expect_value;
  stack_size = 0;
  stack = stack;
  stack_capacity = cap;
  user = user;
}

module _ {U D : Type 0} (cfg : Config) (fl : Doubles D) (client : Client U D) where
  abbrev pub parser_sink : Sink (Parser U) D
  parser_sink = record {
    token = token cfg client;
    tokenc = tokenc cfg client;
    tokeni = tokeni cfg client;
    tokenf = tokenf cfg client;
    tokenc_begin = tokenc_begin cfg client;
    tokenc_end = tokenc_end cfg client;
    tokenbn_begin = tokenbn_begin cfg client;
    tokenbn = tokenbn cfg client;
    tokenbn_end = tokenbn_end cfg client;
    error_ex = error client;
  }

  -- The lexer beside the rest of the parser, after an error of the parser alone.
  abbrev beside : Lexer → Outcome (Parser U) → Outcome (Lexer × Parser U)
  beside lex (ret code p) = ret code (lex, p)
  beside lex fault = fault

  -- `embedjson_push`, with the self-check of EMBEDJSON_DEBUG
  unfoldable pub push : Lexer → Parser U → List ℕ → Option (Outcome (Lexer × Parser U))
  push lex p buf =
      if cfg.debug && not cfg.int_signed
      then some (beside lex (error client Common.internal_error (at 0) p))
      else Push.push cfg fl parser_sink lex p buf

  -- `embedjson_finalize`
  unfoldable pub finalize : Lexer → Parser U → Outcome (Parser U)
  finalize lex p = Push.finalize cfg fl parser_sink lex p >>= λ p'.
      if is_done p'.state then ret 0 p' else error client Common.insufficient_input null_position p'
