-- ===== src/Lint/Misread.antt =====
-- Where embedjson_lint.c reads the byte before its buffer.
use embedjson.Base.{ℕ, ◌≡◌, ◌≢◌, refl, false, not, ◌&&◌, List, [], ◌∷◌, Option, some, arith}
use embedjson.Common.{before_buffer, internal_error, ret, fault, error_ex}
use embedjson.Config.{Config}
use embedjson.Lexer.Double.{Doubles}
use embedjson.Lexer.Push.{body, body_in, ending}
use embedjson.Lexer.Push
use embedjson.Lexer.Step.Number.{number, is_exp_mark}
use embedjson.Lexer.Step.{is_digit, stop}
use embedjson.Lexer.{Lexer, in_number}
use embedjson.Lint.Main.{read_loop, complained, symbol_at}
use embedjson.Lint.{Lint, lint_client}
use embedjson.Parser.Api.{parser_sink, push}
use embedjson.Parser.Handlers.Scalars.{tokeni_in}
use embedjson.Parser.{Parser, maybe_array_comma}

module _ {D : Type 0} (cfg : Config) (fl : Doubles D) (realloc : List ℕ → ℕ → Option (List ℕ)) where
  abbrev after_error : Parser (Lint D) → Parser (Lint D)
  after_error p = record p {
    user = record p.user { error_position = before_buffer; error_code = internal_error };
  }

  body_misread :
      (lex : Lexer) (p : Parser (Lint D)) (c : ℕ)
      → lex.state ≡ in_number
      → p.state ≡ maybe_array_comma
      → is_digit c ≡ false
      → c ≢ b'.'
      → is_exp_mark c ≡ false
      → body cfg fl (parser_sink cfg fl (lint_client realloc)) (c ∷ []) 0 c (Push.start cfg lex) p
        ≡ stop 1 (after_error p)
  unfolding body body_in number tokeni_in error_ex
  body_misread lex p c e f digit point mark = ground arith

  push_misread :
      (lex : Lexer) (p : Parser (Lint D)) (c : ℕ)
      → (cfg.debug && not cfg.int_signed) ≡ false
      → body cfg fl (parser_sink cfg fl (lint_client realloc)) (c ∷ []) 0 c (Push.start cfg lex) p
        ≡ stop 1 (after_error p)
      → push cfg fl (lint_client realloc) lex p (c ∷ []) ≡ some (ret 1 (lex, after_error p))
  unfolding push Push.push ending Push.bytes_loop Push.byte_rounds body body_in
  push_misread lex p c signed e = rw (signed, e) refl

  -- A number that ends an array's item without a comma before it, as in `[1 2]`, where the byte behind
  -- it is read by embedjson_lint.c: the position of the error is `data - 1`, before the buffer of one
  -- byte, and the message to stderr reads from there.
  pub read_loop-misreads :
      (lex : Lexer) (p : Parser (Lint D)) (c ch : ℕ) (rest : List ℕ)
      → (cfg.debug && not cfg.int_signed) ≡ false
      → lex.state ≡ in_number
      → p.state ≡ maybe_array_comma
      → is_digit c ≡ false
      → c ≢ b'.'
      → is_exp_mark c ≡ false
      → read_loop cfg fl (lint_client realloc) (c ∷ rest) ch lex p ≡ some fault
  unfolding read_loop complained symbol_at
  read_loop-misreads lex p c ch rest signed e f digit point mark =
      rw (read_loop, push_misread lex p c signed (body_misread lex p c e f digit point mark)) refl
