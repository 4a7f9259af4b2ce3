-- ===== src/Lexer/Push/Runs.antt =====
-- Strings and numbers through the loop of `embedjson_lexer_push` of lexer.c, from a lexer that rests.
use embedjson.Base.{◌≢◌, ◌≤◌, ◌<◌, drop_one}
use embedjson.Lexer.Push.Written.{string, chunk_call, run_call}
use embedjson.Base.{
  ℕ, ◌+◌, ◌-◌, ◌≡◌, refl, sym, ap, ◌∙◌, Bool, true, Option, some, List, [], ◌∷◌, ◌++◌, length, take,
  drop, arith, if◌then◌else◌,
}
use embedjson.Base.Ints.{pos}
use embedjson.Common
use embedjson.Common.{Position, at, position_before, Outcome, ret, fault}
use embedjson.Lexer.Step.Number.{opposite}
use embedjson.Config.{Config, ull_mod}
use embedjson.Lexer.Double.{Doubles}
use embedjson.Lexer.Encoding.{sniff}
use embedjson.Lexer.Push.Lexemes.{resting, at_rest, sniff_all-rest}
use embedjson.Lexer.Push.Steps.{
  sniff_all, sniff_all-append, call_step, called, called-ext, called-bind,
}
use embedjson.Lexer.Push.{bytes_loop}
use embedjson.Lexer.Step.Number.Integer.{AreDigits, value, Ends}
use embedjson.Lexer.Step.Number.Decimal.{decimal, decimal_read, whole}
use embedjson.Lexer.Encoding.{sniff}
use embedjson.Lexer.Step.Number.Numeral.{IsNumeral, between_tokens, text, integer_read}
use embedjson.Lexer.Step.Text.Plain.{
  IsPlain, idle, rested, opened, quoted, Taken-plain, take_append,
}
use embedjson.Lexer.Step.{flush_string, slice}
use embedjson.Lexer.Utf8.Chars.{Taken-run}
use embedjson.Lexer.{Lexer, Sink}

sniffed-rest :
    (xs ys : List ℕ) (e : ℕ) (lex : Lexer)
    → sniff (sniff_all (sniff (sniff_all (resting lex) xs) b'.') ys) e
      ≡ resting (sniff (sniff_all (sniff (sniff_all lex xs) b'.') ys) e)
sniffed-rest xs ys e lex =
    ap (λ l. sniff (sniff_all (sniff l b'.') ys) e) (sniff_all-rest xs lex)
    ∙ ap (λ l. sniff l e) (sniff_all-rest (b'.' ∷ ys) (sniff_all lex xs))
    ∙ sniff_all-rest (e ∷ []) (sniff_all (sniff (sniff_all lex xs) b'.') ys)

module _ {S D : Type 0} (cfg : Config) (fl : Doubles D) (sink : Sink S D) (buf : List ℕ)
    (validates : cfg.validate_utf8 ≡ true) where
  slice-text :
      (i : ℕ) (cs rest : List ℕ) → drop i buf ≡ cs ++ b'"' ∷ rest → slice buf i (i + length cs) ≡ cs
  slice-text i cs rest h =
      let e : i + length cs - i ≡ length cs = omega arith in
      ap (λ n. take n (drop i buf)) e ∙ ap (take (length cs)) h ∙ take_append cs (b'"' ∷ rest)

  flush-chunk :
      (i : ℕ) (cs rest : List ℕ) (s : S)
      → drop i buf ≡ cs ++ b'"' ∷ rest
      → flush_string sink buf (some i) (i + length cs) s ≡ chunk_call sink cs (at i) s
  unfolding flush_string
  flush-chunk i [] rest s h = ground arith
  flush-chunk i (c ∷ cs) rest s h = ground (arith, slice-text i (c ∷ cs) rest h)

  rested-text :
      (cs : List ℕ) (lex : Lexer)
      → rested (sniff_all (sniff (resting lex) b'"') cs) (b'"' ∷ [])
        ≡ resting (sniff_all lex (b'"' ∷ cs ++ b'"' ∷ []))
  rested-text cs lex = ap idle (
      sym (sniff_all-append cs (b'"' ∷ []) (sniff (resting lex) b'"'))
      ∙ sniff_all-rest (b'"' ∷ cs ++ b'"' ∷ []) lex)

  -- A string from its quotation mark on.
  pub quoted_run :
      (i : ℕ) (cs rest : List ℕ) (lex : Lexer) (chunk : Option ℕ) (s : S)
      → IsPlain cs
      → drop i buf ≡ b'"' ∷ cs ++ b'"' ∷ rest
      → bytes_loop cfg fl sink buf (b'"' ∷ cs ++ b'"' ∷ rest) i (at_rest lex chunk) s
        ≡ called
            (run_call fl sink (string (at i) cs (at (i + 1)) (at (i + 1 + length cs))) s)
            (λ s'.
              bytes_loop cfg fl sink buf rest
                (i + 1 + length cs + 1)
                (at_rest (sniff_all lex (b'"' ∷ cs ++ b'"' ∷ [])) (some (i + 1)))
                s')
  quoted_run i cs rest lex chunk s p h =
      call_step cfg fl sink buf (cs ++ b'"' ∷ rest) i b'"' _ _ s _
        (opened cfg fl sink validates buf i (at_rest lex chunk) (resting lex) s refl)
      ∙ called-ext (sink.tokenc_begin (at i) s) _ _ (λ s1.
        Taken-run cfg fl sink buf (some (i + 1)) (b'"' ∷ rest) (i + 1) (sniff (resting lex) b'"') s1
          (Taken-plain cfg fl sink validates buf (some (i + 1)) cs p)
        ∙ call_step cfg fl sink buf rest (i + 1 + length cs) b'"' _ _ s1 _ (
            quoted cfg fl sink validates buf (some (i + 1)) (i + 1 + length cs)
              (sniff_all (sniff (resting lex) b'"') cs) s1)
        ∙ ap
            (λ m. called (Common.◌>>=◌ m (sink.tokenc_end (at (i + 1 + length cs)))) (λ s'.
              bytes_loop cfg fl sink buf rest (i + 1 + length cs + 1)
                (record {
                  lex = rested (sniff_all (sniff (resting lex) b'"') cs) (b'"' ∷ []);
                  chunk = some (i + 1);
                })
                s'))
            (flush-chunk (i + 1) cs rest s1 (drop_one buf i b'"' (cs ++ b'"' ∷ rest) h))
        ∙ ap
            (λ l.
              called
                (Common.◌>>=◌ (chunk_call sink cs (at (i + 1)) s1)
                  (sink.tokenc_end (at (i + 1 + length cs))))
                (λ s'.
                  bytes_loop cfg fl sink buf rest (i + 1 + length cs + 1)
                    (record { lex = l; chunk = some (i + 1) }) s'))
            (rested-text cs lex))
      ∙ sym (called-bind (sink.tokenc_begin (at i) s) _ _)

  pub number_run :
      (i : ℕ) (minus : Bool) (cs : List ℕ) (e : ℕ) (rest : List ℕ) (lex : Lexer) (chunk : Option ℕ)
      (s : S)
      → IsNumeral cfg cs
      → Ends e
      → bytes_loop cfg fl sink buf (text minus cs ++ e ∷ rest) i (at_rest lex chunk) s
        ≡ called
            (sink.tokeni
              (if minus then opposite cfg (value 0 cs) else pos (value 0 cs))
              (position_before (i + length (text minus cs)))
              s)
            (λ s'.
              bytes_loop cfg fl sink buf
                (e ∷ rest)
                (i + length (text minus cs))
                (at_rest (sniff_all lex (text minus cs ++ e ∷ [])) chunk)
                s')
  number_run i minus cs e rest lex chunk s n h =
      integer_read cfg fl sink buf chunk minus cs e rest (resting lex) i s n h
      ∙ ap
          (λ l.
            called
              (sink.tokeni (if minus then opposite cfg (value 0 cs) else pos (value 0 cs))
                (position_before (i + length (text minus cs))) s)
              (λ s'.
                bytes_loop cfg fl sink buf (e ∷ rest) (i + length (text minus cs))
                  (between_tokens l chunk) s'))
          (sniff_all-rest (text minus cs ++ e ∷ []) lex)

  pub decimal_run :
      (i : ℕ) (minus : Bool) (cs fs : List ℕ) (e : ℕ) (rest : List ℕ) (lex : Lexer)
      (chunk : Option ℕ) (s : S)
      → IsNumeral cfg cs
      → AreDigits fs
      → length fs ≢ 0
      → length fs ≤ 323
      → value 0 fs < ull_mod
      → Ends e
      → let end = i + length (text minus cs) + 1 + length fs in
        let behind = sniff (sniff_all (sniff (sniff_all lex (text minus cs)) b'.') fs) e in
        bytes_loop cfg fl sink buf
          (text minus cs ++ (b'.' ∷ fs ++ e ∷ rest))
          i
          (at_rest lex chunk)
          s
        ≡ called
            (sink.tokenf
              (decimal fl minus (value 0 cs) (value 0 fs) (length fs))
              (position_before end)
              s)
            (λ s'. bytes_loop cfg fl sink buf (e ∷ rest) end (at_rest behind chunk) s')
  decimal_run i minus cs fs e rest lex chunk s n ds z b small h =
      decimal_read cfg fl sink buf chunk minus cs fs e rest (resting lex) i s n ds z b small h
      ∙ ap
          (λ l.
            called
              (sink.tokenf (decimal fl minus (value 0 cs) (value 0 fs) (length fs))
                (position_before (i + length (text minus cs) + 1 + length fs)) s)
              (λ s'.
                bytes_loop cfg fl sink buf (e ∷ rest) (i + length (text minus cs) + 1 + length fs)
                  (between_tokens (whole l) chunk) s'))
          (sniffed-rest (text minus cs) fs e lex)
