-- ===== src/Tests/Safety.antt =====
-- The theorems about the invariant of lexer and parser at a concrete document, with the recording
-- client.
use embedjson.Base.{inr, ◌≡◌, refl, arith, List, [], some}
use embedjson.Common.{Outcome}
use embedjson.Config.{default_config, int_max}
use embedjson.Lexer.Push
use embedjson.Lexer.Push.Contract.Kept.{push-Ready}
use embedjson.Lexer.Push.Contract.{Ready, Within, run_after, runs_within, IsLimit}
use embedjson.Lexer.{Lexer, in_number, initial_lexer}
use embedjson.Parser.Api.{push, finalize}
use embedjson.Parser.Invariant.{IsParser}
use embedjson.Parser.Safety.Push.{
  InStep, initial-InStep, parser_sink-Contract, push-InStep, finalize_complete,
}
use embedjson.Parser.Safety.Scalars.{InText}
use embedjson.Parser.Safety.{Strict}
use embedjson.Parser.Stack.Laws.{HasStack, brackets}
use embedjson.Parser.{done, Parser}
use embedjson.Tests.Lexer.{document, fresh, sink}
use embedjson.Tests.Whole.{fresh-HasStack}
use embedjson.Tests.{Entry, symbolic, recorder}

recorder-Strict : Strict recorder
recorder-Strict code position u e = absurd (omega arith)

-- The default of 64 bits.
pub eighteen : IsLimit default_config 18
unfolding int_max
eighteen = record { table = omega arith; sum = inr (inr (omega arith)) }

push-Ready_example :
    (r : Outcome (Lexer × Parser (List Entry))) × (Push.push default_config symbolic sink
        initial_lexer fresh document
      ≡ some r)
    × Within
        (λ o.
          Ready (IsParser default_config) (InText default_config) (run_after 0 document) o.0 o.1)
        r
unfolding runs_within
push-Ready_example =
    push-Ready default_config symbolic sink
      (parser_sink-Contract default_config symbolic recorder recorder-Strict refl refl) refl 18 0
      initial_lexer fresh document eighteen (initial-InStep default_config _ _ fresh-HasStack) refl

push-InStep_example :
    (r : Outcome (Lexer × Parser (List Entry))) × (push default_config symbolic recorder
        initial_lexer fresh document
      ≡ some r)
    × Within (λ o. InStep default_config (run_after 0 document) o.0 o.1) r
unfolding runs_within
push-InStep_example =
    push-InStep default_config symbolic recorder recorder-Strict refl refl 18 0 initial_lexer fresh
      document eighteen refl (initial-InStep default_config _ _ fresh-HasStack) refl

-- The lexer behind `12`.
abbrev behind_twelve : Lexer
behind_twelve = record initial_lexer { state = in_number; int_value = 12 }

behind_twelve-InStep : InStep default_config 2 behind_twelve fresh
behind_twelve-InStep = record {
  frac_le = omega arith;
  exp_le = omega arith;
  value_fits = omega arith;
  word_fits = tt;
  held = record { has_stack = fresh-HasStack; fit = refl };
}

finalize_complete_example :
    Within
      (λ p'. (p'.state ≡ done) × (brackets p' ≡ []) × HasStack default_config p')
      (finalize default_config symbolic recorder behind_twelve fresh)
finalize_complete_example =
    finalize_complete default_config symbolic recorder recorder-Strict refl refl 2 behind_twelve
      fresh behind_twelve-InStep (omega arith)
