-- ===== src/Lexer/Step/Number/Decimal.antt =====
-- Numbers with a fraction through the loop of `embedjson_lexer_push` of lexer.c.
use embedjson.Base.{
  ℕ, suc, ◌+◌, ◌-◌, ◌*◌, ◌≤◌, ◌<◌, ◌≡◌, ◌≢◌, refl, ap, ◌∙◌, Bool, true, Option, List, [], ◌∷◌, ◌++◌,
  length, arith, if◌then◌else◌,
}
use embedjson.Base.Ints.{pos, negated}
use embedjson.Common.{position_before}
use embedjson.Config.{Config, ull_mod, ushort_mod}
use embedjson.Lexer.Double.Table.{powm10_lem}
use embedjson.Lexer.Double.{Doubles, fraction, signed}
use embedjson.Lexer.Encoding.{sniff}
use embedjson.Lexer.Push.Steps.{sniff_all, next_step, again_step, called}
use embedjson.Lexer.Push.{body, body_in, bytes_loop}
use embedjson.Lexer.Step.Number.Integer.{
  value, value_grows, AreDigits, Ends, counting, sniff-counting,
}
use embedjson.Lexer.Step.Number.Numeral.{IsNumeral, text, between_tokens, numeral_run}
use embedjson.Lexer.Step.Number.{number, number_frac, hand_over}
use embedjson.Lexer.Step.{Loop, next, back, ◌>>=◌, is_digit, with_lexer}
use embedjson.Lexer.{Lexer, in_number, in_number_frac, Sink}

-- A lexer with no fraction begun.
abbrev pub whole : Lexer → Lexer
whole lex = record lex { frac_value = 0; frac_power = 0 }

-- The loop in a fraction, `k` digits with the value `f` so far.
abbrev fractional : Lexer → Option ℕ → Bool → ℕ → ℕ → ℕ → Loop
fractional lex chunk minus n f k = record {
  lex = record lex {
    state = in_number_frac;
    minus = minus;
    int_value = n;
    frac_value = f;
    frac_power = k;
  };
  chunk = chunk;
}

sniff-whole : (lex : Lexer) (c : ℕ) → sniff (whole lex) c ≡ whole (sniff lex c)
unfolding sniff
sniff-whole lex c = ground arith

sniff_all-whole : (cs : List ℕ) (lex : Lexer) → sniff_all (whole lex) cs ≡ whole (sniff_all lex cs)
sniff_all-whole [] lex = refl
sniff_all-whole (c ∷ cs) lex =
    ap (λ l. sniff_all l cs) (sniff-whole lex c) ∙ sniff_all-whole cs (sniff lex c)

sniff-fractional :
    (lex : Lexer) (chunk : Option ℕ) (minus : Bool) (n f k c : ℕ)
    → with_lexer (fractional lex chunk minus n f k) (sniff (fractional lex chunk minus n f k).lex c)
      ≡ fractional (sniff lex c) chunk minus n f k
unfolding sniff
sniff-fractional lex chunk minus n f k c = ground arith

-- The double handed on: the integer plus the digits of the fraction times a power of ten.
abbrev pub decimal : {D : Type 0} → Doubles D → Bool → ℕ → ℕ → ℕ → D
decimal fl minus n f k =
    let sum = fl.add (fl.of_int (pos n)) (fl.mul (fl.of_ull f) (fl.literal (negated k))) in
    if minus then fl.sub (fl.of_int (pos 0)) sum else sum

module _ {S D : Type 0} (cfg : Config) (fl : Doubles D) (sink : Sink S D) (buf : List ℕ)
    (chunk : Option ℕ) (minus : Bool) (n : ℕ) where
  frac_digit :
      (lex : Lexer) (i c f k : ℕ) (s : S)
      → is_digit c ≡ true
      → 10 * f + (c - b'0') < ull_mod
      → k + 1 < ushort_mod
      → number_frac fl sink i c (fractional lex chunk minus n f k) s
        ≡ next (fractional lex chunk minus n (10 * f + (c - b'0')) (k + 1)) s
  unfolding number_frac
  frac_digit lex i c f k s d hf hk = ground arith

  frac_digits :
      (cs rest : List ℕ) (lex : Lexer) (i f k : ℕ) (s : S)
      → AreDigits cs
      → value f cs < ull_mod
      → k + length cs < ushort_mod
      → bytes_loop cfg fl sink buf (cs ++ rest) i (fractional lex chunk minus n f k) s
        ≡ bytes_loop cfg fl sink buf rest
            (i + length cs)
            (fractional (sniff_all lex cs) chunk minus n (value f cs) (k + length cs))
            s
  unfolding body body_in
  frac_digits [] rest lex i f k s ds hf hk =
      let e : i ≡ i + 0 = omega arith in
      let e' : k ≡ k + 0 = omega arith in
      ap (λ j. bytes_loop cfg fl sink buf rest j (fractional lex chunk minus n f k) s) e
      ∙ ap (λ j. bytes_loop cfg fl sink buf rest (i + 0) (fractional lex chunk minus n f j) s) e'
  frac_digits (c ∷ cs) rest lex i f k s (d, ds) hf hk =
      let e : i + 1 + length cs ≡ i + suc (length cs) = omega arith in
      let e' : k + 1 + length cs ≡ k + suc (length cs) = omega arith in
      next_step cfg fl sink buf (cs ++ rest) i c _ _ s s (
        ap (λ v. number_frac fl sink i c v s) (sniff-fractional lex chunk minus n f k c)
        ∙ frac_digit (sniff lex c) i c f k s d (omega (arith, value_grows cs (10 * f + (c - b'0'))))
            (omega arith))
      ∙ frac_digits cs rest (sniff lex c) (i + 1) (10 * f + (c - b'0')) (k + 1) s ds hf
          (omega arith)
      ∙ ap
          (λ j.
            bytes_loop cfg fl sink buf rest j
              (fractional (sniff_all (sniff lex c) cs) chunk minus n
                (value (10 * f + (c - b'0')) cs) (k + 1 + length cs))
              s)
          e
      ∙ ap
          (λ j.
            bytes_loop cfg fl sink buf rest (i + suc (length cs))
              (fractional (sniff_all (sniff lex c) cs) chunk minus n
                (value (10 * f + (c - b'0')) cs) j)
              s)
          e'

  frac_end :
      (lex : Lexer) (i c f k : ℕ) (s : S)
      → Ends c
      → k ≢ 0
      → k ≤ 323
      → number_frac fl sink i c (fractional lex chunk minus n f k) s ≡ (
          sink.tokenf (decimal fl minus n f k) (position_before i) s >>= λ s'.
          back (between_tokens (whole lex) chunk) s')
  unfolding number_frac hand_over fraction signed
  frac_end lex i c f k s h z b = ground (arith, (powm10_lem fl k).0)

  point :
      (lex : Lexer) (rest : List ℕ) (i : ℕ) (s : S)
      → bytes_loop cfg fl sink buf (b'.' ∷ rest) i (counting (whole lex) chunk in_number minus n) s
        ≡ bytes_loop cfg fl sink buf rest (i + 1) (fractional (sniff lex b'.') chunk minus n 0 0) s
  unfolding body body_in number
  point lex rest i s = next_step cfg fl sink buf rest i b'.' _ _ s s (
      ap (λ v. number cfg sink i b'.' v s) (sniff-counting (whole lex) chunk in_number minus n b'.')
      ∙ ap (λ l. number cfg sink i b'.' (counting l chunk in_number minus n) s)
          (sniff-whole lex b'.'))

  frac_ending :
      (lex : Lexer) (rest : List ℕ) (i c f k : ℕ) (s : S)
      → Ends c
      → k ≢ 0
      → k ≤ 323
      → bytes_loop cfg fl sink buf (c ∷ rest) i (fractional lex chunk minus n f k) s
        ≡ called (sink.tokenf (decimal fl minus n f k) (position_before i) s) (λ s'.
          bytes_loop cfg fl sink buf (c ∷ rest) i (between_tokens (whole (sniff lex c)) chunk) s')
  unfolding body body_in
  frac_ending lex rest i c f k s h z b =
      again_step cfg fl sink buf rest i c _ _ s _
        (ap (λ v. number_frac fl sink i c v s) (sniff-fractional lex chunk minus n f k c)
          ∙ frac_end (sniff lex c) i c f k s h z b)
        refl

module _ {S D : Type 0} (cfg : Config) (fl : Doubles D) (sink : Sink S D) (buf : List ℕ)
    (chunk : Option ℕ) where
  -- In the loop, between tokens with no fraction begun, a numeral with or without a minus, a point,
  -- and one to 323 digits whose value is below 2^64, and behind them a byte that is no digit, point,
  -- `e` or `E`, make one call of the handler of doubles: the numeral plus the value of the digits
  -- times the literal of ten to the minus of their count, taken from 0 behind a minus. Then the loop
  -- goes on with that same byte, between tokens again.
  pub decimal_read :
      (minus : Bool) (cs fs : List ℕ) (e : ℕ) (rest : List ℕ) (lex : Lexer) (i : ℕ) (s : S)
      → IsNumeral cfg cs
      → AreDigits fs
      → length fs ≢ 0
      → length fs ≤ 323
      → value 0 fs < ull_mod
      → Ends e
      → let end = i + length (text minus cs) + 1 + length fs in
        let behind = sniff (sniff_all (sniff (sniff_all lex (text minus cs)) b'.') fs) e in
        bytes_loop cfg fl sink buf
          (text minus cs ++ (b'.' ∷ fs ++ e ∷ rest))
          i
          (between_tokens (whole lex) chunk)
          s
        ≡ called
            (sink.tokenf
              (decimal fl minus (value 0 cs) (value 0 fs) (length fs))
              (position_before end)
              s)
            (λ s'.
              bytes_loop cfg fl sink buf (e ∷ rest) end (between_tokens (whole behind) chunk) s')
  decimal_read minus cs fs e rest lex i s n ds z b small h =
      let k : 0 + length fs ≡ length fs = omega arith in
      let v = value 0 cs in
      let start = sniff_all lex (text minus cs) in
      numeral_run cfg fl sink buf chunk minus cs (b'.' ∷ fs ++ e ∷ rest) (whole lex) i s n
      ∙ ap
          (λ l.
            bytes_loop cfg fl sink buf (b'.' ∷ fs ++ e ∷ rest) (i + length (text minus cs))
              (counting l chunk in_number minus v) s)
          (sniff_all-whole (text minus cs) lex)
      ∙ point cfg fl sink buf chunk minus v start (fs ++ e ∷ rest) (i + length (text minus cs)) s
      ∙ frac_digits cfg fl sink buf chunk minus v fs (e ∷ rest) (sniff start b'.')
          (i + length (text minus cs) + 1) 0 0 s ds small (omega arith)
      ∙ ap
          (λ j.
            bytes_loop cfg fl sink buf (e ∷ rest) (i + length (text minus cs) + 1 + length fs)
              (fractional (sniff_all (sniff start b'.') fs) chunk minus v (value 0 fs) j) s)
          k
      ∙ frac_ending cfg fl sink buf chunk minus v (sniff_all (sniff start b'.') fs) rest
          (i + length (text minus cs) + 1 + length fs) e (value 0 fs) (length fs) s h z b
