-- ===== src/Lexer/Step/Number/Unfinished.antt =====
-- Numbers without digits behind the point or the exponent, in `embedjson_lexer_push` and at the end
-- of the input in `embedjson_lexer_finalize` of lexer.c.
use embedjson.Base.{ℕ, ◌≤◌, ◌≡◌, false, none, some, arith, ap, ◌∙◌}
use embedjson.Base.Ints.{pos, negated}
use embedjson.Common.{empty_frac, empty_exp, at, null_position}
use embedjson.Config.{Config}
use embedjson.Lexer.Double.Table.{powm10_lem}
use embedjson.Lexer.Double.{Doubles, final_fraction, scale, signed}
use embedjson.Lexer.Push.{finalize, finalize_in, final_double}
use embedjson.Lexer.Step.Number.{number_frac, number_exp}
use embedjson.Lexer.Step.{Loop, give_up, is_digit}
use embedjson.Lexer.{Lexer, in_number_frac, in_number_exp, Sink}

module _ {S D : Type 0} (cfg : Config) (fl : Doubles D) (sink : Sink S D) where
  final_fraction_lem :
      (lex : Lexer)
      → lex.frac_power ≤ 323
      → final_fraction fl lex
        ≡ some (
            fl.add
              (fl.mul (fl.of_ull lex.frac_value) (fl.literal (negated lex.frac_power)))
              (fl.of_int (pos lex.int_value)))
  unfolding final_fraction
  final_fraction_lem lex h = ground (arith, (powm10_lem fl lex.frac_power).0)

  scale_one :
      (lex : Lexer) (x : D)
      → lex.exp_value ≡ 0
      → scale fl lex x ≡ some (fl.mul x (fl.literal (pos 0)))
  unfolding scale
  scale_one lex x z = ground (arith, (powm10_lem fl 0).0)

  -- In a number with a point and no digit behind it, any byte but a digit is answered with
  -- EMBEDJSON_EMPTY_FRAC, whereas at the end of the input `embedjson_lexer_finalize` hands the
  -- number on as a double.
  pub empty_frac-accepted :
      (i c : ℕ) (v : Loop) (s : S)
      → v.lex.state ≡ in_number_frac
      → v.lex.frac_power ≡ 0
      → is_digit c ≡ false
      → (number_frac fl sink i c v s ≡ give_up (sink.error_ex empty_frac (at i) s))
        × (finalize cfg fl sink v.lex s
            ≡ sink.tokenf
                (signed fl v.lex (
                  fl.add
                    (fl.mul (fl.of_ull v.lex.frac_value) (fl.literal (pos 0)))
                    (fl.of_int (pos v.lex.int_value))))
                null_position
                s)
  unfolding number_frac finalize finalize_in final_double
  empty_frac-accepted i c v s e z d = (
    ground arith,
    ap (λ st. finalize_in cfg fl sink st v.lex s) e
        ∙ ap (λ o. final_double cfg fl sink v.lex o s) (final_fraction_lem v.lex (omega (arith, z)))
        ∙ ap
            (λ n.
              sink.tokenf
                (signed fl v.lex (
                  fl.add (fl.mul (fl.of_ull v.lex.frac_value) (fl.literal (negated n)))
                    (fl.of_int (pos v.lex.int_value))))
                null_position s)
            z,
  )

  -- In a number with an exponent mark and its sign but no digit behind them, any byte but a digit is
  -- answered with EMBEDJSON_EMPTY_EXP, whereas at the end of the input `embedjson_lexer_finalize`
  -- hands the number on as a double, where at most 323 digits stand behind the point.
  pub empty_exp-accepted :
      (i c : ℕ) (v : Loop) (s : S)
      → v.lex.state ≡ in_number_exp
      → v.lex.exp_not_empty ≡ false
      → v.lex.exp_value ≡ 0
      → v.lex.frac_power ≤ 323
      → is_digit c ≡ false
      → (number_exp fl sink i c v s ≡ give_up (sink.error_ex empty_exp (at i) s))
        × (finalize cfg fl sink v.lex s
            ≡ sink.tokenf
                (signed fl v.lex (
                  fl.mul
                    (fl.add
                      (fl.mul (fl.of_ull v.lex.frac_value) (fl.literal (negated v.lex.frac_power)))
                      (fl.of_int (pos v.lex.int_value)))
                    (fl.literal (pos 0))))
                null_position
                s)
  unfolding number_exp finalize finalize_in final_double
  empty_exp-accepted i c v s e n z h d = (
    ground arith,
    ap (λ st. finalize_in cfg fl sink st v.lex s) e
        ∙ ap
            (λ o.
              final_double cfg fl sink v.lex (elim o [ none ↦ none | some x ↦ scale fl v.lex x ]) s)
            (final_fraction_lem v.lex h)
        ∙ ap (λ o. final_double cfg fl sink v.lex o s) (scale_one v.lex _ z),
  )
