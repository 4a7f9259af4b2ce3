-- ===== src/Lexer/Push/Words.antt =====
-- Keywords through the loop of `embedjson_lexer_push` of lexer.c.
use embedjson.Base.{ℕ, ◌+◌, ◌≡◌, refl, ap, ◌∙◌, Option, List, [], ◌∷◌, arith}
use embedjson.Common.{at}
use embedjson.Config.{Config}
use embedjson.Lexer.Double.{Doubles}
use embedjson.Lexer.Encoding.{sniff}
use embedjson.Lexer.Push.Steps.{sniff_all, next_step, call_step, called}
use embedjson.Lexer.Push.{body, body_in, bytes_loop}
use embedjson.Lexer.Step.Keyword.{keyword_at, keyword_true, keyword_false, keyword_null}
use embedjson.Lexer.Step.Lookup.{lookup}
use embedjson.Lexer.Step.{Loop, next, ◌>>=◌, with_lexer}
use embedjson.Lexer.{
  Lexer, LexerState, in_true, in_false, in_null, Sink, Token, true_token, false_token, null_token,
}
use embedjson.Lexer.Push.Lexemes.{resting, at_rest, sniff-rest}

-- The loop in a keyword.
abbrev in_word : Lexer → Option ℕ → LexerState → ℕ → Loop
in_word lex chunk state offset = record {
  lex = record (resting lex) { state = state; offset = offset };
  chunk = chunk;
}

sniff-word :
    (lex : Lexer) (chunk : Option ℕ) (state : LexerState) (offset c : ℕ)
    → with_lexer (in_word lex chunk state offset) (sniff (in_word lex chunk state offset).lex c)
      ≡ in_word (sniff lex c) chunk state offset
unfolding sniff
sniff-word lex chunk state offset c = ground arith

module _ {S D : Type 0} (cfg : Config) (fl : Doubles D) (sink : Sink S D) (buf : List ℕ)
    (chunk : Option ℕ) where
  first_letter :
      (c : ℕ) (state : LexerState) (rest : List ℕ) (lex : Lexer) (i : ℕ) (s : S)
      → ((lex : Lexer) → lookup sink i c (at_rest lex chunk) s ≡ next (in_word lex chunk state 1) s)
      → bytes_loop cfg fl sink buf (c ∷ rest) i (at_rest lex chunk) s
        ≡ bytes_loop cfg fl sink buf rest (i + 1) (in_word (sniff lex c) chunk state 1) s
  unfolding body body_in
  first_letter c state rest lex i s h = next_step cfg fl sink buf rest i c _ _ s s (
      ap (λ l. lookup sink i c (record { lex = l; chunk = chunk }) s) (sniff-rest lex c)
      ∙ h (sniff lex c))

  next_letter :
      (c offset : ℕ) (state : LexerState) (rest : List ℕ) (lex : Lexer) (i : ℕ) (s : S)
      → ((lex : Lexer)
          → body_in cfg fl sink state buf i c (in_word lex chunk state offset) s
            ≡ next (in_word lex chunk state (offset + 1)) s)
      → bytes_loop cfg fl sink buf (c ∷ rest) i (in_word lex chunk state offset) s
        ≡ bytes_loop cfg fl sink buf rest (i + 1) (in_word (sniff lex c) chunk state (offset + 1)) s
  unfolding body
  next_letter c offset state rest lex i s h = next_step cfg fl sink buf rest i c _ _ s s (
      ap (λ v. body_in cfg fl sink state buf i c v s) (sniff-word lex chunk state offset c)
      ∙ h (sniff lex c))

  last_letter :
      (c offset : ℕ) (t : Token) (state : LexerState) (rest : List ℕ) (lex : Lexer) (i : ℕ) (s : S)
      → ((lex : Lexer)
          → body_in cfg fl sink state buf i c (in_word lex chunk state offset) s ≡ (
              sink.token t (at i) s >>= λ s'.
              next (at_rest (record lex { offset = offset + 1 }) chunk) s'))
      → bytes_loop cfg fl sink buf (c ∷ rest) i (in_word lex chunk state offset) s
        ≡ called (sink.token t (at i) s) (λ s'.
          bytes_loop cfg fl sink buf rest
            (i + 1)
            (at_rest (record (sniff lex c) { offset = offset + 1 }) chunk)
            s')
  unfolding body
  last_letter c offset t state rest lex i s h = call_step cfg fl sink buf rest i c _ _ s _ (
      ap (λ v. body_in cfg fl sink state buf i c v s) (sniff-word lex chunk state offset c)
      ∙ h (sniff lex c))

  moved :
      (rest : List ℕ) (v : Loop) (s : S) (i j : ℕ)
      → i ≡ j
      → bytes_loop cfg fl sink buf rest i v s ≡ bytes_loop cfg fl sink buf rest j v s
  moved rest v s i j e = ap (λ k. bytes_loop cfg fl sink buf rest k v s) e

  pub true_run :
      (rest : List ℕ) (lex : Lexer) (i : ℕ) (s : S)
      → bytes_loop cfg fl sink buf (b't' ∷ b'r' ∷ b'u' ∷ b'e' ∷ rest) i (at_rest lex chunk) s
        ≡ called (sink.token true_token (at (i + 3)) s) (λ s'.
          bytes_loop cfg fl sink buf rest
            (i + 3 + 1)
            (at_rest (record (sniff_all lex (b't' ∷ b'r' ∷ b'u' ∷ b'e' ∷ [])) { offset = 4 }) chunk)
            s')
  unfolding body_in lookup keyword_true keyword_at
  true_run rest lex i s =
      first_letter b't' in_true _ lex i s (λ l. refl)
      ∙ next_letter b'r' 1 in_true _ (sniff_all lex (b't' ∷ [])) (i + 1) s (λ l. refl)
      ∙ next_letter b'u' 2 in_true _ (sniff_all lex (b't' ∷ b'r' ∷ [])) (i + 1 + 1) s (λ l. refl)
      ∙ moved _ _ s _ _ (omega arith)
      ∙ last_letter b'e' 3 true_token in_true rest (sniff_all lex (b't' ∷ b'r' ∷ b'u' ∷ [])) (i + 3)
          s (λ l. refl)

  pub false_run :
      (rest : List ℕ) (lex : Lexer) (i : ℕ) (s : S)
      → bytes_loop cfg fl sink buf (b'f' ∷ b'a' ∷ b'l' ∷ b's' ∷ b'e' ∷ rest) i (at_rest lex chunk) s
        ≡ called (sink.token false_token (at (i + 4)) s) (λ s'.
          bytes_loop cfg fl sink buf rest
            (i + 4 + 1)
            (at_rest
              (record (sniff_all lex (b'f' ∷ b'a' ∷ b'l' ∷ b's' ∷ b'e' ∷ [])) { offset = 5 })
              chunk)
            s')
  unfolding body_in lookup keyword_false keyword_at
  false_run rest lex i s =
      first_letter b'f' in_false _ lex i s (λ l. refl)
      ∙ next_letter b'a' 1 in_false _ (sniff_all lex (b'f' ∷ [])) (i + 1) s (λ l. refl)
      ∙ next_letter b'l' 2 in_false _ (sniff_all lex (b'f' ∷ b'a' ∷ [])) (i + 1 + 1) s (λ l. refl)
      ∙ next_letter b's' 3 in_false _ (sniff_all lex (b'f' ∷ b'a' ∷ b'l' ∷ [])) (i + 1 + 1 + 1) s
          (λ l. refl)
      ∙ moved _ _ s _ _ (omega arith)
      ∙ last_letter b'e' 4 false_token in_false rest
          (sniff_all lex (b'f' ∷ b'a' ∷ b'l' ∷ b's' ∷ [])) (i + 4) s (λ l. refl)

  pub null_run :
      (rest : List ℕ) (lex : Lexer) (i : ℕ) (s : S)
      → bytes_loop cfg fl sink buf (b'n' ∷ b'u' ∷ b'l' ∷ b'l' ∷ rest) i (at_rest lex chunk) s
        ≡ called (sink.token null_token (at (i + 3)) s) (λ s'.
          bytes_loop cfg fl sink buf rest
            (i + 3 + 1)
            (at_rest (record (sniff_all lex (b'n' ∷ b'u' ∷ b'l' ∷ b'l' ∷ [])) { offset = 4 }) chunk)
            s')
  unfolding body_in lookup keyword_null keyword_at
  null_run rest lex i s =
      first_letter b'n' in_null _ lex i s (λ l. refl)
      ∙ next_letter b'u' 1 in_null _ (sniff_all lex (b'n' ∷ [])) (i + 1) s (λ l. refl)
      ∙ next_letter b'l' 2 in_null _ (sniff_all lex (b'n' ∷ b'u' ∷ [])) (i + 1 + 1) s (λ l. refl)
      ∙ moved _ _ s _ _ (omega arith)
      ∙ last_letter b'l' 3 null_token in_null rest (sniff_all lex (b'n' ∷ b'u' ∷ b'l' ∷ [])) (i + 3)
          s (λ l. refl)
