-- ===== src/Lexer/Step/Text/Unicode.antt =====
-- The escape sequence `\u` through the loop of `embedjson_lexer_push` of lexer.c.
use embedjson.Base.Bytes.{passes, passes-at}
use embedjson.Base.{
  ℕ, ◌+◌, ◌*◌, ◌<◌, ◌≡◌, refl, ap, ◌∙◌, true, Option, some, List, [], ◌∷◌, arith, bit_or, ◌==◌,
}
use embedjson.Common.{elsewhere}
use embedjson.Config.{Config}
use embedjson.Lexer.Double.{Doubles}
use embedjson.Lexer.Encoding.{sniff}
use embedjson.Lexer.Push.Steps.{sniff_all, next_step, call_step, called}
use embedjson.Lexer.Push.{body, body_in, bytes_loop}
use embedjson.Lexer.Step.Text.{
  hex_value, unescape, escaped, string_escape, string_unicode_escape, unicode_escaped,
  unicode_digit,
}
use embedjson.Lexer.Step.{Loop, next, with_lexer}
use embedjson.Lexer.Utf8.Chars.{inside}
use embedjson.Lexer.{Lexer, LexerState, in_string_escape, in_string_unicode_escape, Sink}

-- The loop in an escape sequence.
abbrev pub escaping : Lexer → Option ℕ → LexerState → ℕ → ℕ → ℕ → Loop
escaping lex chunk state offset hi lo = record {
  lex = record lex {
    state = state;
    nb = 0;
    cc = 0;
    offset = offset;
    unicode_hi = hi;
    unicode_lo = lo;
  };
  chunk = chunk;
}

sniff-escaping :
    (lex : Lexer) (chunk : Option ℕ) (state : LexerState) (offset hi lo c : ℕ)
    → with_lexer
        (escaping lex chunk state offset hi lo)
        (sniff (escaping lex chunk state offset hi lo).lex c)
      ≡ escaping (sniff lex c) chunk state offset hi lo
unfolding sniff
sniff-escaping lex chunk state offset hi lo c = ground arith

same_test : (a b : ℕ) → (a == b) ≡ true → a ≡ b
same_test a b h = ground arith

nibbles_table : passes (λ a. passes (λ b. bit_or (a * 16) b == 16 * a + b) 16) 16 ≡ true
unfolding passes
nibbles_table = refl

-- Two halves of a byte.
nibbles : (a b : ℕ) → a < 16 → b < 16 → bit_or (a * 16) b ≡ 16 * a + b
nibbles a b ha hb = same_test _ _ (passes-at _ 16 b (passes-at _ 16 a nibbles_table ha) hb)

hex_bound : (c v : ℕ) → hex_value c ≡ some v → v < 16
unfolding hex_value
hex_bound c v h = ground arith

module _ {S D : Type 0} (cfg : Config) (fl : Doubles D) (sink : Sink S D) (buf : List ℕ)
    (chunk : Option ℕ) where
  digit_step :
      (c v offset hi lo hi' lo' : ℕ) (rest : List ℕ) (lex : Lexer) (i : ℕ) (s : S)
      → hex_value c ≡ some v
      → ((lex : Lexer)
          → unicode_digit sink i c (escaping lex chunk in_string_unicode_escape offset hi lo) s v
            ≡ next (escaping lex chunk in_string_unicode_escape (offset + 1) hi' lo') s)
      → bytes_loop cfg fl sink buf
          (c ∷ rest)
          i
          (escaping lex chunk in_string_unicode_escape offset hi lo)
          s
        ≡ bytes_loop cfg fl sink buf rest
            (i + 1)
            (escaping (sniff lex c) chunk in_string_unicode_escape (offset + 1) hi' lo')
            s
  unfolding body body_in string_unicode_escape unicode_escaped
  digit_step c v offset hi lo hi' lo' rest lex i s h step =
      next_step cfg fl sink buf rest i c _ _ s s (
        ap (λ w. string_unicode_escape sink i c w s)
          (sniff-escaping lex chunk in_string_unicode_escape offset hi lo c)
        ∙ ap
            (unicode_escaped sink i c
              (escaping (sniff lex c) chunk in_string_unicode_escape offset hi lo) s)
            h
        ∙ step (sniff lex c))

  last_digit :
      (c v hi lo : ℕ) (rest : List ℕ) (lex : Lexer) (i : ℕ) (s : S)
      → hex_value c ≡ some v
      → bytes_loop cfg fl sink buf
          (c ∷ rest)
          i
          (escaping lex chunk in_string_unicode_escape 3 hi lo)
          s
        ≡ called (sink.tokenc elsewhere (hi ∷ bit_or lo v ∷ []) s) (λ s'.
          bytes_loop cfg fl sink buf rest
            (i + 1)
            (inside
              (record (sniff lex c) { offset = 4; unicode_hi = hi; unicode_lo = bit_or lo v })
              (some (i + 1))
              0
              0)
            s')
  unfolding body body_in string_unicode_escape unicode_escaped unicode_digit
  last_digit c v hi lo rest lex i s h = call_step cfg fl sink buf rest i c _ _ s _ (
      ap (λ w. string_unicode_escape sink i c w s)
        (sniff-escaping lex chunk in_string_unicode_escape 3 hi lo c)
      ∙ ap
          (unicode_escaped sink i c (escaping (sniff lex c) chunk in_string_unicode_escape 3 hi lo)
            s)
          h)

  letter_u :
      (offset hi lo : ℕ) (rest : List ℕ) (lex : Lexer) (i : ℕ) (s : S)
      → bytes_loop cfg fl sink buf
          (b'u' ∷ rest)
          i
          (escaping lex chunk in_string_escape offset hi lo)
          s
        ≡ bytes_loop cfg fl sink buf rest
            (i + 1)
            (escaping (sniff lex b'u') chunk in_string_unicode_escape 0 hi lo)
            s
  unfolding body body_in string_escape unescape escaped
  letter_u offset hi lo rest lex i s = next_step cfg fl sink buf rest i b'u' _ _ s s (
      ap (λ w. string_escape sink i b'u' w s)
        (sniff-escaping lex chunk in_string_escape offset hi lo b'u'))

  unicode_digits :
      (a b c d va vb vc vd hi lo : ℕ) (rest : List ℕ) (lex : Lexer) (i : ℕ) (s : S)
      → hex_value a ≡ some va
      → hex_value b ≡ some vb
      → hex_value c ≡ some vc
      → hex_value d ≡ some vd
      → bytes_loop cfg fl sink buf
          (a ∷ b ∷ c ∷ d ∷ rest)
          i
          (escaping lex chunk in_string_unicode_escape 0 hi lo)
          s
        ≡ called (sink.tokenc elsewhere (bit_or (va * 16) vb ∷ bit_or (vc * 16) vd ∷ []) s) (λ s'.
          bytes_loop cfg fl sink buf rest
            (i + 1 + 1 + 1 + 1)
            (inside
              (record (sniff_all lex (a ∷ b ∷ c ∷ d ∷ [])) {
                offset = 4;
                unicode_hi = bit_or (va * 16) vb;
                unicode_lo = bit_or (vc * 16) vd;
              })
              (some (i + 1 + 1 + 1 + 1))
              0
              0)
            s')
  unfolding unicode_digit
  unicode_digits a b c d va vb vc vd hi lo rest lex i s ha hb hc hd =
      digit_step a va 0 hi lo (va * 16) lo (b ∷ c ∷ d ∷ rest) lex i s ha (λ l. refl)
      ∙ digit_step b vb 1 (va * 16) lo (bit_or (va * 16) vb) lo (c ∷ d ∷ rest) (sniff lex a) (i + 1)
          s hb (λ l. refl)
      ∙ digit_step c vc 2 (bit_or (va * 16) vb) lo (bit_or (va * 16) vb) (vc * 16) (d ∷ rest)
          (sniff (sniff lex a) b) (i + 1 + 1) s hc (λ l. refl)
      ∙ last_digit d vd (bit_or (va * 16) vb) (vc * 16) rest (sniff_all lex (a ∷ b ∷ c ∷ []))
          (i + 1 + 1 + 1) s hd

  -- In a string, behind a backslash, `u` and four hexadecimal digits hand on one chunk of two bytes,
  -- the value of the first two digits and that of the last two. Then the loop goes on in the string
  -- behind the digits.
  pub unicode_escape_lem :
      (offset hi lo a b c d va vb vc vd : ℕ) (rest : List ℕ) (lex : Lexer) (i : ℕ) (s : S)
      → hex_value a ≡ some va
      → hex_value b ≡ some vb
      → hex_value c ≡ some vc
      → hex_value d ≡ some vd
      → bytes_loop cfg fl sink buf
          (b'u' ∷ a ∷ b ∷ c ∷ d ∷ rest)
          i
          (escaping lex chunk in_string_escape offset hi lo)
          s
        ≡ called (sink.tokenc elsewhere ((16 * va + vb) ∷ (16 * vc + vd) ∷ []) s) (λ s'.
          bytes_loop cfg fl sink buf rest
            (i + 5)
            (inside
              (record (sniff_all lex (b'u' ∷ a ∷ b ∷ c ∷ d ∷ [])) {
                offset = 4;
                unicode_hi = 16 * va + vb;
                unicode_lo = 16 * vc + vd;
              })
              (some (i + 5))
              0
              0)
            s')
  unicode_escape_lem offset hi lo a b c d va vb vc vd rest lex i s ha hb hc hd =
      let upper = nibbles va vb (hex_bound a va ha) (hex_bound b vb hb) in
      let lower = nibbles vc vd (hex_bound c vc hc) (hex_bound d vd hd) in
      let five : i + 1 + 1 + 1 + 1 + 1 ≡ i + 5 = omega arith in
      letter_u offset hi lo (a ∷ b ∷ c ∷ d ∷ rest) lex i s
      ∙ unicode_digits a b c d va vb vc vd hi lo rest (sniff lex b'u') (i + 1) s ha hb hc hd
      ∙ rw (upper, lower, five) refl
