-- ===== src/Tests/Numbers.antt =====
-- The theorems about numbers in lexer.c at concrete inputs.
use embedjson.Tests.Lexer.{sink, fresh}
use embedjson.Base.{ℕ, ◌≢◌, ◌⊎◌, false, ◌≡◌, [], ◌∷◌, some}
use embedjson.Common.{Outcome}
use embedjson.Config.{Config, default_config}
use embedjson.Lexer.Push
use embedjson.Lexer.{initial_lexer}
use embedjson.Tests.{symbolic}
use embedjson.Base.{refl, none, ◌/◌, ◌<◌, ◌≤◌, ◌+◌, true, arith}
use embedjson.Base.Ints.{pos, negated}
use embedjson.Common
use embedjson.Common.{at, null_position, bad_utf8, int_overflow, leading_zero}
use embedjson.Config.{int_max}
use embedjson.Common.{empty_frac, empty_exp}
use embedjson.Lexer.Double.{signed}
use embedjson.Lexer.Step.Number.{number_frac, number_exp}
use embedjson.Lexer.Step.Number.Unfinished.{empty_frac-accepted, empty_exp-accepted}
use embedjson.Lexer.{in_number_frac, in_number_exp}
use embedjson.Lexer.Double.Table.{powm10_lem}
use embedjson.Lexer.Double.{powm10}
use embedjson.Lexer.Push.Steps.{sniff_all, called}
use embedjson.Lexer.Push.{bytes_loop}
use embedjson.Lexer.Step.Number.Decimal.{decimal_read, whole}
use embedjson.Lexer.Step.Number.Numeral.{
  integer_read, integer_final, single, several, between_tokens,
}
use embedjson.Lexer.Step.Number.Integer.{counting}
use embedjson.Lexer.Step.Number.Refused.{integer_refused}
use embedjson.Lexer.Step.Number.Overflow.{number_digit-exact}
use embedjson.Lexer.Step.Number.{number}
use embedjson.Lexer.Step.{give_up, crash, Loop}
use embedjson.Lexer.{in_number}

-- `[-120]` behind the bracket.
integer_read_example :
    bytes_loop default_config symbolic sink []
      (b'-' ∷ b'1' ∷ b'2' ∷ b'0' ∷ b']' ∷ [])
      1
      (between_tokens initial_lexer none)
      fresh
    ≡ called (sink.tokeni (negated 120) (at 4) fresh) (λ s'.
      bytes_loop default_config symbolic sink []
        (b']' ∷ [])
        5
        (between_tokens (sniff_all initial_lexer (b'-' ∷ b'1' ∷ b'2' ∷ b'0' ∷ b']' ∷ [])) none)
        s')
unfolding int_max
integer_read_example =
    integer_read default_config symbolic sink [] none true (b'1' ∷ b'2' ∷ b'0' ∷ []) b']' []
      initial_lexer 1 fresh
      (several b'1' (b'2' ∷ b'0' ∷ []) refl (omega arith) (refl, (refl, tt)) (omega arith))
      (refl, omega arith, omega arith, omega arith)

integer_final_example :
    (Push.push default_config symbolic sink initial_lexer fresh (b'-' ∷ b'7' ∷ [])
      ≡ some (
          Common.ret 0 (
            (counting (sniff_all initial_lexer (b'-' ∷ b'7' ∷ [])) none in_number true 7).lex,
            fresh,
          )))
    × (Push.finalize default_config symbolic sink
          (counting (sniff_all initial_lexer (b'-' ∷ b'7' ∷ [])) none in_number true 7).lex
          fresh
        ≡ sink.tokeni (negated 7) null_position fresh)
integer_final_example =
    integer_final default_config symbolic sink true (b'7' ∷ []) initial_lexer fresh
      (single b'7' refl)

-- A tenth of the largest number, which is 9223372036854775807.
abbrev large : Loop
large = record {
  lex = record initial_lexer { state = in_number; int_value = 922337203685477580 };
  chunk = none;
}

number_digit-exact_example :
    (number default_config sink 18 b'0' large fresh ≡ crash)
    × (922337203685477580 + 0 ≤ int_max default_config / 10
        → (9223372036854775800 + 0 ≤ int_max default_config)
          × (int_max default_config < 9223372036854775848
              → (b'0' ≤ b'5') × (int_max default_config / 10 < 922337203685477580 + 0 + 5)))
unfolding int_max
number_digit-exact_example =
    number_digit-exact default_config sink 18 b'0' large fresh refl refl refl (omega arith)
      (omega arith)

-- Eight bits, with 127 as EMBEDJSON_INT_MAX.
abbrev narrow_config : Config
narrow_config = record default_config { int_bits = 8 }

integer_refused_example :
    (◌≡◌ {A = ℕ} 12 0
      → bytes_loop narrow_config symbolic sink []
          (b'-' ∷ b'1' ∷ b'2' ∷ b'7' ∷ [])
          0
          (between_tokens initial_lexer none)
          fresh
        ≡ some (give_up (sink.error_ex leading_zero (at 3) fresh)))
    × (narrow_config.bignum ≡ false
        → ◌≢◌ {A = ℕ} 12 0
        → (12 < 19) ⊎ (127 < 127)
        → bytes_loop narrow_config symbolic sink []
            (b'-' ∷ b'1' ∷ b'2' ∷ b'7' ∷ [])
            0
            (between_tokens initial_lexer none)
            fresh
          ≡ some (give_up (sink.error_ex int_overflow (at 3) fresh)))
unfolding int_max
integer_refused_example =
    integer_refused narrow_config symbolic sink [] none true (b'1' ∷ b'2' ∷ []) b'7' []
      initial_lexer 0 fresh (several b'1' (b'2' ∷ []) refl (omega arith) (refl, tt) (omega arith))
      refl

powm10_lem_example :
    (powm10 symbolic (pos 2) ≡ some (symbolic.literal (negated 2)))
    × (powm10 symbolic (negated 2) ≡ some (symbolic.literal (pos 2)))
powm10_lem_example = powm10_lem symbolic 2

-- Behind `1.` and behind `1e+`.
abbrev pointed : Loop
pointed = record {
  lex = record initial_lexer { state = in_number_frac; int_value = 1 };
  chunk = none;
}

abbrev marked : Loop
marked = record {
  lex = record initial_lexer { state = in_number_exp; int_value = 1 };
  chunk = none;
}

empty_frac-accepted_example :
    (number_frac symbolic sink 2 b' ' pointed fresh
      ≡ give_up (sink.error_ex empty_frac (at 2) fresh))
    × (Push.finalize default_config symbolic sink pointed.lex fresh
        ≡ sink.tokenf
            (symbolic.add
              (symbolic.mul (symbolic.of_ull 0) (symbolic.literal (pos 0)))
              (symbolic.of_int (pos 1)))
            null_position
            fresh)
unfolding signed
empty_frac-accepted_example =
    empty_frac-accepted default_config symbolic sink 2 b' ' pointed fresh refl refl refl

empty_exp-accepted_example :
    (number_exp symbolic sink 3 b' ' marked fresh ≡ give_up (sink.error_ex empty_exp (at 3) fresh))
    × (Push.finalize default_config symbolic sink marked.lex fresh
        ≡ sink.tokenf
            (symbolic.mul
              (symbolic.add
                (symbolic.mul (symbolic.of_ull 0) (symbolic.literal (pos 0)))
                (symbolic.of_int (pos 1)))
              (symbolic.literal (pos 0)))
            null_position
            fresh)
unfolding signed
empty_exp-accepted_example =
    empty_exp-accepted default_config symbolic sink 3 b' ' marked fresh refl refl refl (omega arith)
      refl

-- `-1.25,`
decimal_read_example :
    bytes_loop default_config symbolic sink []
      (b'-' ∷ b'1' ∷ b'.' ∷ b'2' ∷ b'5' ∷ b',' ∷ [])
      0
      (between_tokens (whole initial_lexer) none)
      fresh
    ≡ called
        (sink.tokenf
          (symbolic.sub (symbolic.of_int (pos 0)) (
            symbolic.add
              (symbolic.of_int (pos 1))
              (symbolic.mul (symbolic.of_ull 25) (symbolic.literal (negated 2)))))
          (at 4)
          fresh)
        (λ s'.
          bytes_loop default_config symbolic sink []
            (b',' ∷ [])
            5
            (between_tokens
              (whole (sniff_all initial_lexer (b'-' ∷ b'1' ∷ b'.' ∷ b'2' ∷ b'5' ∷ b',' ∷ [])))
              none)
            s')
decimal_read_example =
    decimal_read default_config symbolic sink [] none true (b'1' ∷ []) (b'2' ∷ b'5' ∷ []) b',' []
      initial_lexer 0 fresh (single b'1' refl) (refl, (refl, tt)) (omega arith) (omega arith)
      (omega arith) (refl, omega arith, omega arith, omega arith)
