-- ===== src/Lexer/Step/Number/Numeral.antt =====
-- Integers as a whole through `embedjson_lexer_push` and `embedjson_lexer_finalize` of lexer.c.
use mathlib.Core.List.{append-nil}
use embedjson.Base.{
  none, ℕ, ◌+◌, ◌-◌, ◌*◌, ◌/◌, ◌≤◌, ◌≡◌, ◌≢◌, refl, sym, ap, ◌∙◌, Bool, true, false, List, [], ◌∷◌,
  ◌++◌, some, length, arith, Option, if◌then◌else◌,
}
use embedjson.Base.Ints.{pos}
use embedjson.Common.{position_before, null_position, ret}
use embedjson.Config.{Config, int_max}
use embedjson.Lexer.Double.{Doubles}
use embedjson.Lexer.Encoding.{sniff}
use embedjson.Lexer.Push.Steps.{sniff_all, next_step, called, push_next, sniff_all-append}
use embedjson.Lexer.Push.{body, body_in, bytes_loop, push, start, flush_rest, finalize, finalize_in}
use embedjson.Lexer.Step.Lookup.{lookup}
use embedjson.Lexer.Step.Number.{number_sign, opposite}
use embedjson.Lexer.Step.Number.Integer.{
  value, AreDigits, Ends, counting, sniff-counting, digits_run, ending_run,
}
use embedjson.Lexer.Step.{Loop, next, is_digit}
use embedjson.Lexer.{Lexer, lookup_token, in_number_sign, in_number, Sink}

-- A numeral as JSON writes it, whose value the lexer takes without doubt: a single digit, or digits
-- that do not start with 0 and make up at most a tenth of EMBEDJSON_INT_MAX.
pub data IsNumeral (cfg : Config) : List ℕ → Type 0 where
  single : (c : ℕ) → is_digit c ≡ true → IsNumeral cfg (c ∷ [])
  several :
      (c : ℕ) (cs : List ℕ)
      → is_digit c ≡ true
      → c ≢ b'0'
      → AreDigits cs
      → value 0 (c ∷ cs) ≤ int_max cfg / 10
      → IsNumeral cfg (c ∷ cs)

-- A numeral with its sign.
abbrev pub text : Bool → List ℕ → List ℕ
text true cs = b'-' ∷ cs
text false cs = cs

-- The loop between tokens, with no number begun.
abbrev pub between_tokens : Lexer → Option ℕ → Loop
between_tokens lex chunk = counting lex chunk lookup_token false 0

module _ {S D : Type 0} (cfg : Config) (fl : Doubles D) (sink : Sink S D) (buf : List ℕ)
    (chunk : Option ℕ) where
  first_digit :
      (c : ℕ) (rest : List ℕ) (lex : Lexer) (i : ℕ) (s : S)
      → is_digit c ≡ true
      → bytes_loop cfg fl sink buf (c ∷ rest) i (between_tokens lex chunk) s
        ≡ bytes_loop cfg fl sink buf rest
            (i + 1)
            (counting (sniff lex c) chunk in_number false (10 * 0 + (c - b'0')))
            s
  unfolding body body_in lookup
  first_digit c rest lex i s d = next_step cfg fl sink buf rest i c _ _ s s (
      ap (λ v. lookup sink i c v s) (sniff-counting lex chunk lookup_token false 0 c)
      ∙ ground arith)

  minus_sign :
      (rest : List ℕ) (lex : Lexer) (i : ℕ) (s : S)
      → bytes_loop cfg fl sink buf (b'-' ∷ rest) i (between_tokens lex chunk) s
        ≡ bytes_loop cfg fl sink buf rest
            (i + 1)
            (counting (sniff lex b'-') chunk in_number_sign true 0)
            s
  unfolding body body_in lookup
  minus_sign rest lex i s =
      next_step cfg fl sink buf rest i b'-' _ _ s s
        (ap (λ v. lookup sink i b'-' v s) (sniff-counting lex chunk lookup_token false 0 b'-'))

  signed_digit :
      (c : ℕ) (rest : List ℕ) (lex : Lexer) (i : ℕ) (s : S)
      → is_digit c ≡ true
      → bytes_loop cfg fl sink buf (c ∷ rest) i (counting lex chunk in_number_sign true 0) s
        ≡ bytes_loop cfg fl sink buf rest
            (i + 1)
            (counting (sniff lex c) chunk in_number true (10 * 0 + (c - b'0')))
            s
  unfolding body body_in number_sign
  signed_digit c rest lex i s d = next_step cfg fl sink buf rest i c _ _ s s (
      ap (λ v. number_sign sink i c v s) (sniff-counting lex chunk in_number_sign true 0 c)
      ∙ ground arith)

  leads : {c : ℕ} {cs : List ℕ} → IsNumeral cfg (c ∷ cs) → is_digit c ≡ true
  leads (single _ d) = d
  leads (several _ _ d nz ds h) = d

  tail_run :
      (c : ℕ) (cs rest : List ℕ) (lex : Lexer) (i : ℕ) (minus : Bool) (s : S)
      → IsNumeral cfg (c ∷ cs)
      → bytes_loop cfg fl sink buf
          (cs ++ rest)
          i
          (counting lex chunk in_number minus (10 * 0 + (c - b'0')))
          s
        ≡ bytes_loop cfg fl sink buf rest
            (i + length cs)
            (counting (sniff_all lex cs) chunk in_number minus (value 0 (c ∷ cs)))
            s
  tail_run c cs rest lex i minus s (single _ d) =
      ap (λ j. bytes_loop cfg fl sink buf rest j _ s) (omega arith)
  tail_run c cs rest lex i minus s (several _ _ d nz ds h) =
      digits_run cfg fl sink buf chunk minus cs rest lex i _ s ds (ground arith) h

  moved :
      (rest : List ℕ) (v : Loop) (s : S) (i j : ℕ)
      → i ≡ j
      → bytes_loop cfg fl sink buf rest i v s ≡ bytes_loop cfg fl sink buf rest j v s
  moved rest v s i j e = ap (λ k. bytes_loop cfg fl sink buf rest k v s) e

  pub numeral_run :
      (minus : Bool) (cs rest : List ℕ) (lex : Lexer) (i : ℕ) (s : S)
      → IsNumeral cfg cs
      → bytes_loop cfg fl sink buf (text minus cs ++ rest) i (between_tokens lex chunk) s
        ≡ bytes_loop cfg fl sink buf rest
            (i + length (text minus cs))
            (counting (sniff_all lex (text minus cs)) chunk in_number minus (value 0 cs))
            s
  numeral_run minus [] rest lex i s h = elim h [ ]
  numeral_run false (c ∷ cs) rest lex i s h =
      first_digit c (cs ++ rest) lex i s (leads h)
      ∙ tail_run c cs rest (sniff lex c) (i + 1) false s h
      ∙ moved rest _ s _ _ (omega arith)
  numeral_run true (c ∷ cs) rest lex i s h =
      minus_sign (c ∷ cs ++ rest) lex i s
      ∙ signed_digit c (cs ++ rest) (sniff lex b'-') (i + 1) s (leads h)
      ∙ tail_run c cs rest (sniff (sniff lex b'-') c) (i + 1 + 1) true s h
      ∙ moved rest _ s _ _ (omega arith)

  -- In the loop, between tokens, a numeral with or without a minus, and behind it a byte that is no
  -- digit, point, `e` or `E`, make one call of the handler of integers, with the value in decimal,
  -- taken from 0 in `embedjson_int_t` behind a minus. Then the loop goes on with that same byte, between tokens again. The numeral is a
  -- digit, or starts with another digit than 0 and is worth at most a tenth of EMBEDJSON_INT_MAX.
  pub integer_read :
      (minus : Bool) (cs : List ℕ) (e : ℕ) (rest : List ℕ) (lex : Lexer) (i : ℕ) (s : S)
      → IsNumeral cfg cs
      → Ends e
      → bytes_loop cfg fl sink buf (text minus cs ++ e ∷ rest) i (between_tokens lex chunk) s
        ≡ called
            (sink.tokeni
              (if minus then opposite cfg (value 0 cs) else pos (value 0 cs))
              (position_before (i + length (text minus cs)))
              s)
            (λ s'.
              bytes_loop cfg fl sink buf
                (e ∷ rest)
                (i + length (text minus cs))
                (between_tokens (sniff_all lex (text minus cs ++ e ∷ [])) chunk)
                s')
  integer_read minus cs e rest lex i s h n =
      numeral_run minus cs (e ∷ rest) lex i s h
      ∙ ending_run cfg fl sink buf chunk minus e rest (sniff_all lex (text minus cs)) _ _ s n
      ∙ ap
          (λ l.
            called
              (sink.tokeni (if minus then opposite cfg (value 0 cs) else pos (value 0 cs))
                (position_before (i + length (text minus cs))) s)
              (λ s'.
                bytes_loop cfg fl sink buf (e ∷ rest) (i + length (text minus cs))
                  (between_tokens l chunk) s'))
          (sym (sniff_all-append (text minus cs) (e ∷ []) lex))

module _ {S D : Type 0} (cfg : Config) (fl : Doubles D) (sink : Sink S D) where
  starts : (lex : Lexer) → start cfg (between_tokens lex none).lex ≡ between_tokens lex none
  starts lex = ground arith

  no_rest :
      (buf : List ℕ) (lex : Lexer) (minus : Bool) (n : ℕ) (s : S)
      → flush_rest cfg fl sink buf (length buf) (counting lex none in_number minus n) s ≡ ret 0 s
  unfolding flush_rest
  no_rest buf lex minus n s = ground arith

  numeral_loop :
      (minus : Bool) (cs : List ℕ) (lex : Lexer) (s : S)
      → IsNumeral cfg cs
      → bytes_loop cfg fl sink
          (text minus cs)
          (text minus cs)
          0
          (start cfg (between_tokens lex none).lex)
          s
        ≡ some (next (counting (sniff_all lex (text minus cs)) none in_number minus (value 0 cs)) s)
  unfolding bytes_loop
  numeral_loop minus cs lex s h = rw (starts lex) (
      ap (λ b. bytes_loop cfg fl sink (text minus cs) b 0 (between_tokens lex none) s)
        (sym (append-nil (text minus cs)))
      ∙ numeral_run cfg fl sink (text minus cs) none minus cs [] lex 0 s h)

  -- Where a whole buffer is a numeral with or without a minus, `embedjson_lexer_push` takes it with
  -- no call of a handler, and `embedjson_lexer_finalize` then makes one call, of the handler of
  -- integers, with the value in decimal, taken from 0 in `embedjson_int_t` behind a minus.
  pub integer_final :
      (minus : Bool) (cs : List ℕ) (lex : Lexer) (s : S)
      → IsNumeral cfg cs
      → let before = (between_tokens lex none).lex in
        let after =
          (counting (sniff_all lex (text minus cs)) none in_number minus (value 0 cs)).lex in
        (push cfg fl sink before s (text minus cs) ≡ some (ret 0 (after, s)))
        × (finalize cfg fl sink after s
            ≡ sink.tokeni
                (if minus then opposite cfg (value 0 cs) else pos (value 0 cs))
                null_position
                s)
  unfolding finalize finalize_in
  integer_final minus cs lex s h = (
    push_next cfg fl sink (text minus cs) _ _ s s (numeral_loop minus cs lex s h)
        (no_rest (text minus cs) (sniff_all lex (text minus cs)) minus (value 0 cs) s),
    refl,
  )
