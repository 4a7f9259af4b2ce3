-- ===== src/Lexer/Push/Reads.antt =====
-- Texts of JSON lexemes through `embedjson_lexer_push` of lexer.c: the lexer reads what is written.
use mathlib.Core.Path.{subst}
use embedjson.Base.{drop_one, drop_step, drop_to}
use embedjson.Lexer.Push.Written.{
  Call, token, string, integer, Written, finished, space, punctuation, true_word, false_word,
  null_word, quoted_text, number, decimal_number, decimal_call, run_call, run_calls,
}
use embedjson.Base.{
  ℕ, zero, suc, ◌+◌, ◌≡◌, refl, sym, ap, ◌∙◌, true, false, Option, none, some, List, [], ◌∷◌, ◌++◌,
  length, drop, arith, if◌then◌else◌,
}
use embedjson.Base.Ints.{pos}
use embedjson.Common.{at, position_before, Outcome, ret, fault}
use embedjson.Lexer.Step.Number.{opposite}
use embedjson.Config.{Config}
use embedjson.Lexer.Double.{Doubles}
use embedjson.Lexer.Encoding.{sniff}
use embedjson.Lexer.Push.Lexemes.{resting, at_rest, space_step, mark_step}
use embedjson.Lexer.Push.Steps.{sniff_all, called, ended, push-ended, called-ext, called-bind}
use embedjson.Lexer.Push.Runs.{quoted_run, number_run, decimal_run}
use embedjson.Lexer.Push.Words.{true_run, false_run, null_run}
use embedjson.Lexer.Push.{bytes_loop, push, start, ending, flush_rest, with_status}
use embedjson.Lexer.Step.Number.Integer.{value}
use embedjson.Lexer.Encoding.{sniff}
use embedjson.Lexer.Step.Number.Numeral.{text}
use embedjson.Lexer.Step.{next}
use embedjson.Lexer.{Lexer, lookup_token, Sink, true_token, false_token, null_token}

module _ {S D : Type 0} (cfg : Config) (fl : Doubles D) (sink : Sink S D) (buf : List ℕ)
    (validates : cfg.validate_utf8 ≡ true) where
  -- What the loop does with the lexemes from index `i` on.
  Reads : ℕ → List Call → List ℕ → Type 0
  Reads i calls bytes =
      (lex : Lexer) (chunk : Option ℕ)
      → (v : Lexer × Option ℕ) × ((s : S)
          → bytes_loop cfg fl sink buf bytes i (at_rest lex chunk) s
            ≡ called (run_calls fl sink calls s) (λ s'. some (next (at_rest v.0 v.1) s')))

  -- A lexeme in front of others.
  prepend :
      (i j : ℕ) (k : Call) (calls : List Call) (bytes rest : List ℕ)
      → ((lex : Lexer) (chunk : Option ℕ)
          → (v : Lexer × Option ℕ) × ((s : S)
              → bytes_loop cfg fl sink buf bytes i (at_rest lex chunk) s
                ≡ called
                    (run_call fl sink k s)
                    (λ s'. bytes_loop cfg fl sink buf rest j (at_rest v.0 v.1) s')))
      → Reads j calls rest
      → Reads i (k ∷ calls) bytes
  unfolding Reads
  prepend i j k calls bytes rest h r lex chunk =
      let (v, e) = h lex chunk in
      let (w, f) = r v.0 v.1 in
      (
        w,
        λ s.
            e s
            ∙ called-ext (run_call fl sink k s) _ _ f
            ∙ sym (called-bind (run_call fl sink k s) (run_calls fl sink calls) _),
      )

  -- The lexemes from index `i` on are read one after the other.
  reads :
      (i : ℕ) (calls : List Call) (bytes : List ℕ)
      → Written cfg i calls bytes
      → drop i buf ≡ bytes
      → Reads i calls bytes
  unfolding Reads bytes_loop
  reads i calls bytes (finished _) d = λ lex chunk. ((lex, chunk), λ s. refl)
  reads i calls bytes (space _ c _ rest h w) d = λ lex chunk.
      let (v, e) = reads (i + 1) calls rest w (drop_one buf i c rest d) (sniff lex c) chunk in
      (v, λ s. space_step cfg fl sink buf chunk c rest lex i s h ∙ e s)
  reads i calls bytes (punctuation _ c t more rest h w) d =
      prepend i (i + 1) (token t (at i)) more (c ∷ rest) rest
        (λ lex chunk.
          ((sniff lex c, chunk), λ s. mark_step cfg fl sink buf chunk t c rest lex i s h))
        (reads (i + 1) more rest w (drop_one buf i c rest d))
  reads i calls bytes (true_word _ more rest w) d =
      prepend i (i + 3 + 1) (token true_token (at (i + 3))) more (b't' ∷ b'r' ∷ b'u' ∷ b'e' ∷ rest)
        rest
        (λ lex chunk. (
          (record (sniff_all lex (b't' ∷ b'r' ∷ b'u' ∷ b'e' ∷ [])) { offset = 4 }, chunk),
          λ s. true_run cfg fl sink buf chunk rest lex i s,
        ))
        (reads (i + 3 + 1) more rest w
          (drop_to buf i _ (b't' ∷ b'r' ∷ b'u' ∷ b'e' ∷ []) rest (omega arith) d))
  reads i calls bytes (false_word _ more rest w) d =
      prepend i (i + 4 + 1) (token false_token (at (i + 4))) more
        (b'f' ∷ b'a' ∷ b'l' ∷ b's' ∷ b'e' ∷ rest) rest
        (λ lex chunk. (
          (record (sniff_all lex (b'f' ∷ b'a' ∷ b'l' ∷ b's' ∷ b'e' ∷ [])) { offset = 5 }, chunk),
          λ s. false_run cfg fl sink buf chunk rest lex i s,
        ))
        (reads (i + 4 + 1) more rest w
          (drop_to buf i _ (b'f' ∷ b'a' ∷ b'l' ∷ b's' ∷ b'e' ∷ []) rest (omega arith) d))
  reads i calls bytes (null_word _ more rest w) d =
      prepend i (i + 3 + 1) (token null_token (at (i + 3))) more (b'n' ∷ b'u' ∷ b'l' ∷ b'l' ∷ rest)
        rest
        (λ lex chunk. (
          (record (sniff_all lex (b'n' ∷ b'u' ∷ b'l' ∷ b'l' ∷ [])) { offset = 4 }, chunk),
          λ s. null_run cfg fl sink buf chunk rest lex i s,
        ))
        (reads (i + 3 + 1) more rest w
          (drop_to buf i _ (b'n' ∷ b'u' ∷ b'l' ∷ b'l' ∷ []) rest (omega arith) d))
  reads i calls bytes (quoted_text _ cs more rest p w) d =
      prepend i (i + 1 + length cs + 1) (string (at i) cs (at (i + 1)) (at (i + 1 + length cs)))
        more (b'"' ∷ cs ++ b'"' ∷ rest) rest
        (λ lex chunk. (
          (sniff_all lex (b'"' ∷ cs ++ b'"' ∷ []), some (i + 1)),
          λ s. quoted_run cfg fl sink buf validates i cs rest lex chunk s p d,
        ))
        (reads (i + 1 + length cs + 1) more rest w (
          drop_one buf (i + 1 + length cs) b'"' rest
            (drop_step buf (i + 1) cs (b'"' ∷ rest) (drop_one buf i b'"' _ d))))
  reads i calls bytes (number _ minus cs e more rest n h w) d =
      prepend i (i + length (text minus cs))
        (integer (if minus then opposite cfg (value 0 cs) else pos (value 0 cs))
          (position_before (i + length (text minus cs))))
        more (text minus cs ++ e ∷ rest) (e ∷ rest)
        (λ lex chunk. (
          (sniff_all lex (text minus cs ++ e ∷ []), chunk),
          λ s. number_run cfg fl sink buf validates i minus cs e rest lex chunk s n h,
        ))
        (reads (i + length (text minus cs)) more (e ∷ rest) w
          (drop_step buf i (text minus cs) (e ∷ rest) d))
  reads i calls bytes (decimal_number _ minus cs fs e more rest n ds z b small h w) d =
      let end = i + length (text minus cs) + 1 + length fs in
      prepend i end (decimal_call minus (value 0 cs) (value 0 fs) (length fs) (position_before end))
        more (text minus cs ++ (b'.' ∷ fs ++ e ∷ rest)) (e ∷ rest)
        (λ lex chunk. (
          (sniff (sniff_all (sniff (sniff_all lex (text minus cs)) b'.') fs) e, chunk),
          λ s.
              decimal_run cfg fl sink buf validates i minus cs fs e rest lex chunk s n ds z b small
                h,
        ))
        (reads end more (e ∷ rest) w (
          drop_step buf (i + length (text minus cs) + 1) fs (e ∷ rest) (
            drop_one buf (i + length (text minus cs)) b'.' (fs ++ e ∷ rest)
              (drop_step buf i (text minus cs) (b'.' ∷ fs ++ e ∷ rest) d))))

  starts : (lex : Lexer) → start cfg (resting lex) ≡ at_rest lex none
  starts lex = ground arith

  no_rest :
      (lex : Lexer) (chunk : Option ℕ) (s : S)
      → flush_rest cfg fl sink buf (length buf) (at_rest lex chunk) s ≡ ret 0 s
  unfolding flush_rest
  no_rest lex chunk s = ground arith

  ended-all :
      (old after : Lexer) (chunk : Option ℕ) (m : Outcome S)
      → ended cfg fl sink buf old (called m (λ s'. some (next (at_rest after chunk) s')))
        ≡ some (with_status old (resting after) m)
  unfolding ending
  ended-all old after chunk (ret zero s) =
      ap (λ o. some (with_status old (resting after) o)) (no_rest after chunk s)
  ended-all old after chunk (ret (suc e) s) = refl
  ended-all old after chunk fault = refl

  -- Where EMBEDJSON_VALIDATE_UTF8 is on, `embedjson_lexer_push` on a buffer that is a sequence of
  -- lexemes and white space, from the start of a token, makes exactly the calls of the lexemes, in
  -- their order and with their positions and values, until one of them reports an error, and then is
  -- at the start of a token again. The lexemes are punctuation marks, `true`, `false` and `null`,
  -- strings without escapes, and numbers without exponents, with the texts that `IsPlain`,
  -- `IsNumeral` and `Written` admit; a byte that cannot continue a number follows each number.
  pub push-reads :
      (lex : Lexer) (calls : List Call)
      → lex.state ≡ lookup_token
      → lex.nb ≡ 0
      → lex.cc ≡ 0
      → lex.minus ≡ false
      → lex.int_value ≡ 0
      → lex.frac_value ≡ 0
      → lex.frac_power ≡ 0
      → Written cfg 0 calls buf
      → (after : Lexer) × ((s : S)
          → push cfg fl sink lex s buf
            ≡ some (with_status lex (resting after) (run_calls fl sink calls s)))
  unfolding Reads
  push-reads lex calls e n k m v f p w =
      let same : resting lex ≡ lex = ground arith in
      let ((after, chunk), f) = reads 0 calls buf w refl lex none in
      (
        after,
        λ s.
            subst
              (λ l.
                push cfg fl sink l s buf
                ≡ some (with_status l (resting after) (run_calls fl sink calls s)))
              same
              (push-ended cfg fl sink buf (resting lex) s
                ∙ ap (ended cfg fl sink buf (resting lex))
                    (ap (λ v. bytes_loop cfg fl sink buf buf 0 v s) (starts lex) ∙ f s)
                ∙ ended-all (resting lex) after chunk (run_calls fl sink calls s)),
      )
