-- ===== src/Lexer/Step/Number/Refused.antt =====
-- Digits that `case LEXER_STATE_IN_NUMBER` of lexer.c refuses behind an integer.
use embedjson.Base.{
  ◌⊎◌, ℕ, ◌+◌, ◌-◌, ◌*◌, ◌/◌, ◌<◌, ◌≡◌, ◌≢◌, ap, ◌∙◌, Bool, true, false, List, ◌∷◌, ◌++◌, length,
  arith, Option, some,
}
use embedjson.Common.{leading_zero, int_overflow, at}
use embedjson.Config.{Config, int_max}
use embedjson.Lexer.Double.{Doubles}
use embedjson.Lexer.Encoding.{sniff}
use embedjson.Lexer.Push.Steps.{sniff_all, give_up_step}
use embedjson.Lexer.Push.{body, body_in, bytes_loop}
use embedjson.Lexer.Step.Number.Integer.{value, counting, sniff-counting}
use embedjson.Lexer.Step.Number.Numeral.{IsNumeral, text, between_tokens, numeral_run}
use embedjson.Lexer.Step.Number.{number, number_digit}
use embedjson.Lexer.Step.{give_up, is_digit}
use embedjson.Lexer.{Lexer, in_number, Sink}

module _ {S D : Type 0} (cfg : Config) (fl : Doubles D) (sink : Sink S D) (buf : List ℕ)
    (chunk : Option ℕ) (minus : Bool) (i c : ℕ) (lex : Lexer) (s : S)
    (digit : is_digit c ≡ true) where
  zero_step :
      number cfg sink i c (counting lex chunk in_number minus 0) s
      ≡ give_up (sink.error_ex leading_zero (at i) s)
  unfolding number number_digit
  zero_step = ground arith

  overflow_step :
      (n : ℕ)
      → cfg.bignum ≡ false
      → n ≢ 0
      → int_max cfg / 10 < n + (c - b'0')
      → number cfg sink i c (counting lex chunk in_number minus n) s
        ≡ give_up (sink.error_ex int_overflow (at i) s)
  unfolding number number_digit
  overflow_step n nb nz big = ground arith

module _ {S D : Type 0} (cfg : Config) (fl : Doubles D) (sink : Sink S D) (buf : List ℕ)
    (chunk : Option ℕ) (minus : Bool) (cs : List ℕ) (c : ℕ) (rest : List ℕ) (lex : Lexer) (i : ℕ)
    (s : S) (h : IsNumeral cfg cs) (digit : is_digit c ≡ true) where
  -- In the loop, between tokens, a numeral with or without a minus and another digit behind it end
  -- the loop with an error at that digit, and no handler of a value is called. The error is
  -- EMBEDJSON_LEADING_ZERO if the numeral is 0. It is EMBEDJSON_INT_OVERFLOW if EMBEDJSON_BIGNUM is
  -- off, the numeral is not 0, and its value and the digit add up to more than a tenth of
  -- EMBEDJSON_INT_MAX or the number with the digit is more than EMBEDJSON_INT_MAX. The numeral is a
  -- digit, or starts with another digit than 0 and is worth at most a tenth of EMBEDJSON_INT_MAX.
  pub integer_refused :
      (value 0 cs ≡ 0
        → bytes_loop cfg fl sink buf (text minus cs ++ c ∷ rest) i (between_tokens lex chunk) s
          ≡ some (give_up (sink.error_ex leading_zero (at (i + length (text minus cs))) s)))
      × (cfg.bignum ≡ false
          → value 0 cs ≢ 0
          → (int_max cfg / 10 < value 0 cs + (c - b'0'))
            ⊎ (int_max cfg < 10 * value 0 cs + (c - b'0'))
          → bytes_loop cfg fl sink buf (text minus cs ++ c ∷ rest) i (between_tokens lex chunk) s
            ≡ some (give_up (sink.error_ex int_overflow (at (i + length (text minus cs))) s)))
  unfolding body body_in
  integer_refused =
      let j = i + length (text minus cs) in
      let read = sniff_all lex (text minus cs) in
      let run = numeral_run cfg fl sink buf chunk minus cs (c ∷ rest) lex i s h in
      let sniffed = sniff-counting read chunk in_number minus (value 0 cs) c in
      (
        λ zero_value.
            run
            ∙ give_up_step cfg fl sink buf rest j c _ s _ (
                ap (λ v. number cfg sink j c v s) sniffed
                ∙ rw zero_value (zero_step cfg fl sink buf chunk minus j c (sniff read c) s digit)),
        λ nb nz big.
            run
            ∙ give_up_step cfg fl sink buf rest j c _ s _ (
                ap (λ v. number cfg sink j c v s) sniffed
                ∙ overflow_step cfg fl sink buf chunk minus j c (sniff read c) s digit (value 0 cs)
                    nb nz (ground arith)),
      )
