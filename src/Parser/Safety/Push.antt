-- ===== src/Parser/Safety/Push.antt =====
-- `embedjson_push` and `embedjson_finalize` keep lexer and parser in step, and fault nowhere.
use embedjson.Base.{
  ℕ, ◌≤◌, ◌≡◌, refl, sym, ap, ◌∙◌, true, false, not, ◌&&◌, List, [], ◌∷◌, some, arith,
}
use embedjson.Client.{Client}
use embedjson.Common
use embedjson.Common.{Outcome, null_position, ret}
use embedjson.Config.{Config}
use embedjson.Lexer.Double.{Doubles}
use embedjson.Lexer.Push
use embedjson.Lexer.Push.Contract.Kept.{push-Ready, finalize-Ready}
use embedjson.Lexer.Push.Contract.Turns.{if_split}
use embedjson.Lexer.Push.Contract.{Contract, Ready, Within, run_after, runs_within, IsLimit}
use embedjson.Lexer.{Lexer, initial_lexer}
use embedjson.Parser.Api.{parser_sink, initial_parser, push, finalize, is_done}
use embedjson.Parser.Invariant.{IsParser, fits, outside}
use embedjson.Parser.Safety.Scalars.{
  InText, tokeni-Within, tokenf-Within, tokenc_begin-Within, tokenc-Within, tokenc_end-Within,
}
use embedjson.Parser.Safety.Tokens.{token-Within}
use embedjson.Parser.Safety.{Strict, error-Fails, error-Within, bind-Within}
use embedjson.Parser.Stack.Laws.{HasStack, brackets}
use embedjson.Parser.{ParserState, done, Bracket, Parser}

-- Lexer and parser in step: outside a string the parser satisfies its invariant, and inside one it is
-- also in a state that takes a string.
abbrev pub InStep : {U : Type 0} → Config → ℕ → Lexer → Parser U → Type 0
InStep cfg q lex p = Ready (IsParser cfg) (InText cfg) q lex p

is_done_eq : (st : ParserState) → is_done st ≡ true → st ≡ done
is_done_eq done e = refl
is_done_eq _ e = absurd (cc e)

outside_eq : (stack : List Bracket) → outside stack ≡ true → stack ≡ []
outside_eq [] e = refl
outside_eq (b ∷ rest) e = absurd (cc e)

module _ {U D : Type 0} (cfg : Config) (fl : Doubles D) (client : Client U D)
    (strict : Strict client) (static : cfg.dynamic_stack ≡ false)
    (no_bignum : cfg.bignum ≡ false) where
  -- The handlers of the parser keep the contract of the lexer.
  pub parser_sink-Contract : Contract (parser_sink cfg fl client) (IsParser cfg) (InText cfg)
  parser_sink-Contract = record {
    token_kept = λ t position p h. token-Within cfg client strict static t position p h;
    tokeni_kept = λ n position p h. tokeni-Within cfg client strict n position p h;
    tokenf_kept = λ x position p h. tokenf-Within cfg client strict x position p h;
    begin_kept = λ position p h. tokenc_begin-Within cfg client strict position p h;
    chunk_kept = λ position chunk p h. tokenc-Within cfg client strict position chunk p h;
    end_kept = λ position p h. tokenc_end-Within cfg client strict position p h;
    error_fails = λ code position p. error-Fails client strict code position p;
  }

  -- On a lexer and a parser that are in step, `embedjson_push` faults nowhere: no access is out of
  -- bounds and no signed sum overflows, whatever the input and whatever the user's callbacks return. Where it returns 0 lexer and
  -- parser are in step again. `embedjson_error` does not return 0, the stack is static,
  -- EMBEDJSON_BIGNUM is off, the self-check of EMBEDJSON_DEBUG finds signed integers, and no run of
  -- digits in the input is longer than the limit: at most 323, and, where `embedjson_int_t` is signed and
  -- has 32 bits or more, such that 10 to the limit plus 47 is at most EMBEDJSON_INT_MAX (18 by default).
  pub push-InStep :
      (limit q : ℕ) (lex : Lexer) (p : Parser U) (buf : List ℕ)
      → IsLimit cfg limit
      → (cfg.debug && not cfg.int_signed) ≡ false
      → InStep cfg q lex p
      → runs_within limit q buf ≡ true
      → (r : Outcome (Lexer × Parser U)) × (push cfg fl client lex p buf ≡ some r)
        × Within (λ o. InStep cfg (run_after q buf) o.0 o.1) r
  unfolding push
  push-InStep limit q lex p buf lim signed h w = rw signed (
      push-Ready cfg fl (parser_sink cfg fl client) parser_sink-Contract no_bignum limit q lex p buf
        lim h w)

  -- On a lexer and a parser that are in step, `embedjson_finalize` faults nowhere, and where it
  -- returns 0 the document is complete: the parser is in PARSER_STATE_DONE with no bracket open. The
  -- conditions are those of `embedjson_push`, and the lexer stands behind at most 323 digits.
  pub finalize_complete :
      (q : ℕ) (lex : Lexer) (p : Parser U)
      → InStep cfg q lex p
      → q ≤ 323
      → Within
          (λ p'. (p'.state ≡ done) × (brackets p' ≡ []) × HasStack cfg p')
          (finalize cfg fl client lex p)
  unfolding finalize
  finalize_complete q lex p h le =
      let Complete : Parser U → Type 0 =
        λ p'. (p'.state ≡ done) × (brackets p' ≡ []) × HasStack cfg p' in
      bind-Within (IsParser cfg) Complete (Push.finalize cfg fl (parser_sink cfg fl client) lex p) _
        (finalize-Ready cfg fl (parser_sink cfg fl client) parser_sink-Contract no_bignum q lex p h
          le)
        λ p' g.
          if_split (Within Complete) (is_done p'.state) (ret 0 p') _
            (λ d.
              let e = is_done_eq p'.state d in
              (
                e,
                outside_eq (brackets p') (sym (ap (λ st. fits st (brackets p')) e) ∙ g.fit),
                g.has_stack,
              ))
            (λ d. error-Within client strict Common.insufficient_input null_position p' Complete)

-- A new parser on a static stack of 1 to 31 bytes and a new lexer are in step.
pub initial-InStep :
    {U : Type 0} (cfg : Config) (stack : List ℕ) (u : U)
    → HasStack cfg (initial_parser stack 0 u)
    → InStep cfg 0 initial_lexer (initial_parser stack 0 u)
initial-InStep cfg stack u ok = record {
  frac_le = omega arith;
  exp_le = omega arith;
  value_fits = refl;
  word_fits = tt;
  held = record { has_stack = ok; fit = refl };
}
