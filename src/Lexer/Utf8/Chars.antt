-- ===== src/Lexer/Utf8/Chars.antt =====
-- The validation of UTF-8 in lexer.c over the characters of RFC 3629 and over bytes that are none.
use embedjson.Base.{
  ℕ, ◌+◌, ◌≤◌, ◌-◌, ◌≡◌, ◌≢◌, ap, ◌∙◌, true, false, List, [], ◌∷◌, ◌++◌, Option, some, ◌⊎◌, if-eq,
  arith, length, if◌then◌else◌,
}
use embedjson.Common.{bad_utf8, at}
use embedjson.Config.{Config}
use embedjson.Lexer.Double.{Doubles}
use embedjson.Lexer.Encoding.{sniff}
use embedjson.Lexer.Push.Steps.{sniff_all, next_step, give_up_step}
use embedjson.Lexer.Push.{body, body_in, bytes_loop}
use embedjson.Lexer.Step.Text.{string, string_checked, string_led, string_plain}
use embedjson.Lexer.Step.{Loop, next, give_up, with_lexer}
use embedjson.Lexer.Utf8.Masks.{ranges}
use embedjson.Lexer.Utf8.Rfc3629.{
  In, IsTail, IsChar, two, three_low, three, three_mid, three_high, four_low, four, four_high,
  refused, IsFalseChar, stray, overlong, unchecked,
}
use embedjson.Lexer.Utf8.{continuation, leading}
use embedjson.Lexer.{Lexer, in_string, Sink}

-- The loop inside a string, with `nb` bytes of a character to come.
abbrev pub inside : Lexer → Option ℕ → ℕ → ℕ → Loop
inside lex chunk nb cc = record {
  lex = record lex { state = in_string; nb = nb; cc = cc };
  chunk = chunk;
}

pub sniff-inside :
    (lex : Lexer) (chunk : Option ℕ) (nb cc c : ℕ)
    → with_lexer (inside lex chunk nb cc) (sniff (inside lex chunk nb cc).lex c)
      ≡ inside (sniff lex c) chunk nb cc
unfolding sniff
sniff-inside lex chunk nb cc c = ground arith

module _ {S D : Type 0} (cfg : Config) (fl : Doubles D) (sink : Sink S D) (buf : List ℕ)
    (chunk : Option ℕ) where
  -- A byte that `case LEXER_STATE_IN_STRING` takes with no call of a handler.
  abbrev pub Takes : ℕ → ℕ → ℕ → ℕ → ℕ → Type 0
  Takes nb cc c nb' cc' =
      (lex : Lexer) (i : ℕ) (s : S)
      → string cfg sink buf i c s (inside lex chunk nb cc) ≡ next (inside lex chunk nb' cc') s

  pub inside_step :
      (nb cc c nb' cc' : ℕ) (cs : List ℕ) (i : ℕ) (lex : Lexer) (s : S)
      → Takes nb cc c nb' cc'
      → bytes_loop cfg fl sink buf (c ∷ cs) i (inside lex chunk nb cc) s
        ≡ bytes_loop cfg fl sink buf cs (i + 1) (inside (sniff lex c) chunk nb' cc') s
  unfolding body body_in
  inside_step nb cc c nb' cc' cs i lex s t =
      next_step cfg fl sink buf cs i c _ _ s s
        (ap (string cfg sink buf i c s) (sniff-inside lex chunk nb cc c) ∙ t (sniff lex c) i s)

  -- Bytes taken one after the other.
  pub data Taken : ℕ → ℕ → List ℕ → ℕ → ℕ → Type 0 where
    nothing : (nb cc : ℕ) → Taken nb cc [] nb cc
    byte :
        (nb cc c nb' cc' : ℕ) (cs : List ℕ) (nb'' cc'' : ℕ)
        → Takes nb cc c nb' cc'
        → Taken nb' cc' cs nb'' cc''
        → Taken nb cc (c ∷ cs) nb'' cc''

  pub Taken-append :
      {nb cc nb' cc' nb'' cc'' : ℕ} {xs ys : List ℕ}
      → Taken nb cc xs nb' cc'
      → Taken nb' cc' ys nb'' cc''
      → Taken nb cc (xs ++ ys) nb'' cc''
  Taken-append (nothing nb cc) q = q
  Taken-append (byte nb cc c nb' cc' cs nb'' cc'' t p) q = byte _ _ _ _ _ _ _ _ t (Taken-append p q)

  pub Taken-run :
      {nb cc nb' cc' : ℕ} {cs : List ℕ} (rest : List ℕ) (i : ℕ) (lex : Lexer) (s : S)
      → Taken nb cc cs nb' cc'
      → bytes_loop cfg fl sink buf (cs ++ rest) i (inside lex chunk nb cc) s
        ≡ bytes_loop cfg fl sink buf rest
            (i + length cs)
            (inside (sniff_all lex cs) chunk nb' cc')
            s
  Taken-run rest i lex s (nothing nb cc) =
      ap (λ j. bytes_loop cfg fl sink buf rest j (inside lex chunk nb cc) s) (omega arith)
  Taken-run rest i lex s (byte nb cc c nb' cc' cs nb'' cc'' t p) =
      inside_step nb cc c nb' cc' (cs ++ rest) i lex s t
      ∙ Taken-run rest (i + 1) (sniff lex c) s p
      ∙ ap
          (λ j.
            bytes_loop cfg fl sink buf rest j (inside (sniff_all (sniff lex c) cs) chunk nb'' cc'')
              s)
          (omega arith)

  module _ (validates : cfg.validate_utf8 ≡ true) where
    tail : (c nb : ℕ) → (nb ≡ 1) ⊎ (nb ≡ 2) → IsTail c → Takes nb 0 c (nb - 1) 0
    unfolding string string_checked string_led string_plain continuation leading
    tail c nb n t lex i s = ground (arith, ranges c (omega arith))

    second_of_four : (c : ℕ) → IsTail c → Takes 3 0 c 2 0
    unfolding string string_checked string_led string_plain continuation leading
    second_of_four c t lex i s = ground (arith, ranges c (omega arith))

    corner :
        (c nb cc : ℕ)
        → ((nb ≡ 2) × (cc ≡ 1) × In 0xa0 0xbf c)
          ⊎ ((nb ≡ 3) × (cc ≡ 2) × (In 0x90 0x9f c ⊎ In 0xb0 0xbf c))
          ⊎ ((nb ≡ 3) × (cc ≡ 3) × In 0x80 0x8f c)
        → Takes nb cc c (nb - 1) 0
    unfolding string string_checked string_led string_plain continuation leading
    corner c nb cc h lex i s = ground (arith, ranges c (omega arith))

    first :
        (c nb cc : ℕ)
        → (In 0xc0 0xdf c × (nb ≡ 1) × (cc ≡ 0))
          ⊎ ((c ≡ 0xe0) × (nb ≡ 2) × (cc ≡ 1))
          ⊎ (In 0xe1 0xef c × (nb ≡ 2) × (cc ≡ 0))
          ⊎ ((c ≡ 0xf0) × (nb ≡ 3) × (cc ≡ 2))
          ⊎ (In 0xf1 0xf3 c × (nb ≡ 3) × (cc ≡ 0))
          ⊎ ((c ≡ 0xf4) × (nb ≡ 3) × (cc ≡ 3))
        → Takes 0 0 c nb cc
    unfolding string string_checked string_led string_plain continuation leading
    first c nb cc h lex i s = ground (arith, ranges c (omega arith))

    three_bytes :
        (a b c : ℕ) → In 0xe1 0xef a → IsTail b → IsTail c → Taken 0 0 (a ∷ b ∷ c ∷ []) 0 0
    three_bytes a b c ha hb hc = byte _ _ _ 2 0 _ _ _ (first a 2 0 (ground arith)) (
        byte _ _ _ 1 0 _ _ _ (tail b 2 (ground arith) hb)
          (byte _ _ _ 0 0 _ _ _ (tail c 1 (ground arith) hc) (nothing _ _)))

    four_bytes :
        (a b c d cc : ℕ)
        → Takes 0 0 a 3 cc
        → Takes 3 cc b 2 0
        → IsTail c
        → IsTail d
        → Taken 0 0 (a ∷ b ∷ c ∷ d ∷ []) 0 0
    four_bytes a b c d cc ta tb hc hd = byte _ _ _ 3 cc _ _ _ ta (
        byte _ _ _ 2 0 _ _ _ tb (
          byte _ _ _ 1 0 _ _ _ (tail c 2 (ground arith) hc)
            (byte _ _ _ 0 0 _ _ _ (tail d 1 (ground arith) hd) (nothing _ _))))

    pub Taken-char : (ch : List ℕ) → IsChar ch → refused ch ≡ false → Taken 0 0 ch 0 0
    Taken-char ch (two a b ha hb) r =
        byte _ _ _ 1 0 _ _ _ (first a 1 0 (ground arith))
          (byte _ _ _ 0 0 _ _ _ (tail b 1 (ground arith) hb) (nothing _ _))
    Taken-char ch (three_low b c hb hc) r = byte _ _ _ 2 1 _ _ _ (first 0xe0 2 1 (ground arith)) (
        byte _ _ _ 1 0 _ _ _ (corner b 2 1 (ground arith))
          (byte _ _ _ 0 0 _ _ _ (tail c 1 (ground arith) hc) (nothing _ _)))
    Taken-char ch (three a b c ha hb hc) r = three_bytes a b c (ground arith) hb hc
    Taken-char ch (three_mid b c hb hc) r = three_bytes 0xed b c (ground arith) (ground arith) hc
    Taken-char ch (three_high a b c ha hb hc) r = three_bytes a b c (ground arith) hb hc
    Taken-char ch (four_low b c d hb hc hd) r =
        four_bytes 0xf0 b c d 2 (first 0xf0 3 2 (ground arith)) (corner b 3 2 (ground arith)) hc hd
    Taken-char ch (four a b c d ha hb hc hd) r =
        four_bytes a b c d 0 (first a 3 0 (ground arith)) (second_of_four b hb) hc hd
    Taken-char ch (four_high b c d hb hc hd) r =
        four_bytes 0xf4 b c d 3 (first 0xf4 3 3 (ground arith)) (corner b 3 3 (ground arith)) hc hd

    lost :
        (c : ℕ)
        → In 0xa0 0xaf c
        → (lex : Lexer) (i : ℕ) (s : S)
        → string cfg sink buf i c s (inside lex chunk 3 2)
          ≡ give_up (sink.error_ex bad_utf8 (at i) s)
    unfolding string string_checked continuation
    lost c h lex i s = ground (arith, ranges c (omega arith))

    char-refused :
        (ch rest : List ℕ) (i : ℕ) (lex : Lexer) (s : S)
        → IsChar ch
        → refused ch ≡ true
        → bytes_loop cfg fl sink buf (ch ++ rest) i (inside lex chunk 0 0) s
          ≡ some (give_up (sink.error_ex bad_utf8 (at (i + 1)) s))
    unfolding body body_in
    char-refused ch rest i lex s (two a b ha hb) r = absurd (ground arith)
    char-refused ch rest i lex s (three_low b c hb hc) r = absurd (ground arith)
    char-refused ch rest i lex s (three a b c ha hb hc) r = absurd (ground arith)
    char-refused ch rest i lex s (three_mid b c hb hc) r = absurd (ground arith)
    char-refused ch rest i lex s (three_high a b c ha hb hc) r = absurd (ground arith)
    char-refused ch rest i lex s (four_low b c d hb hc hd) r =
        inside_step 0 0 0xf0 3 2 (b ∷ c ∷ d ∷ rest) i lex s (first 0xf0 3 2 (ground arith))
        ∙ give_up_step cfg fl sink buf (c ∷ d ∷ rest) (i + 1) b _ s _ (
            ap (string cfg sink buf (i + 1) b s) (sniff-inside (sniff lex 0xf0) chunk 3 2 b)
            ∙ lost b (ground arith) (sniff (sniff lex 0xf0) b) (i + 1) s)
    char-refused ch rest i lex s (four a b c d ha hb hc hd) r = absurd (ground arith)
    char-refused ch rest i lex s (four_high b c d hb hc hd) r = absurd (ground arith)

    alone : (c : ℕ) → IsTail c → Takes 0 0 c 0 0
    unfolding string string_checked string_led string_plain continuation leading
    alone c t lex i s = ground (arith, ranges c (omega arith))

    any_second : (c : ℕ) → c ≤ 0x7f → c ≢ b'"' → c ≢ b'\\' → Takes 3 0 c 2 0
    unfolding string string_checked string_led string_plain continuation leading
    any_second c h nq ns lex i s = ground (arith, ranges c (omega arith))

    -- Inside a string, where EMBEDJSON_VALIDATE_UTF8 is on and no character is open, each character
    -- of two to four bytes of RFC 3629 is taken as a whole, without an error, a token or a trace in
    -- `nb` and `cc`, but for those whose first two bytes are F0 and A0 to AF: these are refused with
    -- EMBEDJSON_BAD_UTF8 at the second byte.
    pub char-taken :
        (ch rest : List ℕ) (i : ℕ) (lex : Lexer) (s : S)
        → IsChar ch
        → bytes_loop cfg fl sink buf (ch ++ rest) i (inside lex chunk 0 0) s ≡ (
            if refused ch
            then some (give_up (sink.error_ex bad_utf8 (at (i + 1)) s))
            else bytes_loop cfg fl sink buf rest
                (i + length ch)
                (inside (sniff_all lex ch) chunk 0 0)
                s)
    char-taken ch rest i lex s h =
        if-eq (refused ch) _ (char-refused ch rest i lex s h)
          (λ r. Taken-run rest i lex s (Taken-char ch h r))

    -- Inside a string, where EMBEDJSON_VALIDATE_UTF8 is on and no character is open, the lexer also
    -- takes as characters what RFC 3629 excludes: a byte from 80 to BF alone, 0xC0 or 0xC1 with a byte
    -- from 80 to BF, and F1 to F3 with any byte up to 7F but a quotation mark or a backslash and two
    -- bytes from 80 to BF.
    pub false_char-taken :
        (ch rest : List ℕ) (i : ℕ) (lex : Lexer) (s : S)
        → IsFalseChar ch
        → bytes_loop cfg fl sink buf (ch ++ rest) i (inside lex chunk 0 0) s
          ≡ bytes_loop cfg fl sink buf rest (i + length ch) (inside (sniff_all lex ch) chunk 0 0) s
    false_char-taken ch rest i lex s (stray a ha) =
        Taken-run rest i lex s (byte _ _ _ 0 0 _ _ _ (alone a ha) (nothing _ _))
    false_char-taken ch rest i lex s (overlong a b ha hb) = Taken-run rest i lex s (
        byte _ _ _ 1 0 _ _ _ (first a 1 0 (ground arith))
          (byte _ _ _ 0 0 _ _ _ (tail b 1 (ground arith) hb) (nothing _ _)))
    false_char-taken ch rest i lex s (unchecked a b c d ha hb nq ns hc hd) =
        Taken-run rest i lex s
          (four_bytes a b c d 0 (first a 3 0 (ground arith)) (any_second b hb nq ns) hc hd)
