-- ===== src/Lexer/Step/Number/Integer.antt =====
-- Integers through the loop of `embedjson_lexer_push` of lexer.c, and at the end of the input.
use embedjson.Base.{
  ℕ, ◌+◌, ◌-◌, ◌*◌, ◌/◌, ◌≤◌, ◌≡◌, ◌≢◌, refl, ap, ◌∙◌, Bool, true, false, List, [], ◌∷◌, ◌++◌,
  length, All, arith, Option, if◌then◌else◌,
}
use embedjson.Base.Ints.{pos}
use embedjson.Common.{position_before}
use embedjson.Config.{Config, int_max}
use embedjson.Lexer.Double.{Doubles}
use embedjson.Lexer.Encoding.{sniff}
use embedjson.Lexer.Push.Steps.{sniff_all, next_step, again_step, called}
use embedjson.Lexer.Push.{body, body_in, bytes_loop}
use embedjson.Lexer.Step.Number.{number, number_digit, opposite}
use embedjson.Lexer.Step.Number.Overflow.{overflows_small}
use embedjson.Lexer.Step.{Loop, next, is_digit, with_lexer}
use embedjson.Lexer.{Lexer, lookup_token, in_number, LexerState, Sink}

-- The number that the digits read after `n` make of it.
abbrev pub value : ℕ → List ℕ → ℕ
value n [] = n
value n (c ∷ cs) = value (10 * n + (c - b'0')) cs

abbrev pub AreDigits : List ℕ → Type 0
AreDigits cs = All (λ c. is_digit c ≡ true) cs

pub value_grows : (cs : List ℕ) (n : ℕ) → n ≤ value n cs
value_grows [] n = omega arith
value_grows (c ∷ cs) n = omega (arith, value_grows cs (10 * n + (c - b'0')))

-- The byte behind the number.
abbrev pub Ends : ℕ → Type 0
Ends c = (is_digit c ≡ false) × (c ≢ b'.') × (c ≢ b'e') × (c ≢ b'E')

-- The loop in a number, `n` so far.
abbrev pub counting : Lexer → Option ℕ → LexerState → Bool → ℕ → Loop
counting lex chunk state minus n = record {
  lex = record lex { state = state; minus = minus; int_value = n };
  chunk = chunk;
}

pub sniff-counting :
    (lex : Lexer) (chunk : Option ℕ) (state : LexerState) (minus : Bool) (n c : ℕ)
    → with_lexer (counting lex chunk state minus n) (sniff (counting lex chunk state minus n).lex c)
      ≡ counting (sniff lex c) chunk state minus n
unfolding sniff
sniff-counting lex chunk state minus n c = ground arith

module _ {S D : Type 0} (cfg : Config) (fl : Doubles D) (sink : Sink S D) (buf : List ℕ)
    (chunk : Option ℕ) (minus : Bool) where
  digit :
      (lex : Lexer) (i c n : ℕ) (s : S)
      → is_digit c ≡ true
      → n ≢ 0
      → 10 * n + (c - b'0') ≤ int_max cfg / 10
      → number cfg sink i c (counting lex chunk in_number minus n) s
        ≡ next (counting lex chunk in_number minus (10 * n + (c - b'0'))) s
  unfolding number number_digit
  digit lex i c n s d nz h = ground (arith, overflows_small cfg n c d h)

  -- The digits behind the first.
  pub digits_run :
      (cs rest : List ℕ) (lex : Lexer) (i n : ℕ) (s : S)
      → AreDigits cs
      → n ≢ 0
      → value n cs ≤ int_max cfg / 10
      → bytes_loop cfg fl sink buf (cs ++ rest) i (counting lex chunk in_number minus n) s
        ≡ bytes_loop cfg fl sink buf rest
            (i + length cs)
            (counting (sniff_all lex cs) chunk in_number minus (value n cs))
            s
  unfolding body body_in
  digits_run [] rest lex i n s ds nz h =
      ap (λ j. bytes_loop cfg fl sink buf rest j (counting lex chunk in_number minus n) s)
        (omega arith)
  digits_run (c ∷ cs) rest lex i n s (d, ds) nz h =
      let grown : 10 * n + (c - b'0') ≤ int_max cfg / 10 =
        omega (arith, value_grows cs (10 * n + (c - b'0'))) in
      next_step cfg fl sink buf (cs ++ rest) i c _ _ s s (
        ap (λ v. number cfg sink i c v s) (sniff-counting lex chunk in_number minus n c)
        ∙ digit (sniff lex c) i c n s d nz grown)
      ∙ digits_run cs rest (sniff lex c) (i + 1) (10 * n + (c - b'0')) s ds (omega arith) h
      ∙ ap
          (λ j.
            bytes_loop cfg fl sink buf rest j
              (counting (sniff_all (sniff lex c) cs) chunk in_number minus
                (value (10 * n + (c - b'0')) cs))
              s)
          (omega arith)

  pub ending_run :
      (c : ℕ) (rest : List ℕ) (lex : Lexer) (i n : ℕ) (s : S)
      → Ends c
      → bytes_loop cfg fl sink buf (c ∷ rest) i (counting lex chunk in_number minus n) s
        ≡ called
            (sink.tokeni (if minus then opposite cfg n else pos n) (position_before i) s)
            (λ s'.
              bytes_loop cfg fl sink buf
                (c ∷ rest)
                i
                (counting (sniff lex c) chunk lookup_token false 0)
                s')
  unfolding body body_in number
  ending_run c rest lex i n s h =
      again_step cfg fl sink buf rest i c _ _ s _
        (ap (λ v. number cfg sink i c v s) (sniff-counting lex chunk in_number minus n c)
          ∙ ground arith)
        refl
