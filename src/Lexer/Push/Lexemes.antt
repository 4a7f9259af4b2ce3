-- ===== src/Lexer/Push/Lexemes.antt =====
-- White space and punctuation marks through the loop of `embedjson_lexer_push` of lexer.c.
use embedjson.Base.{
  ℕ, ◌+◌, ◌≡◌, refl, ap, ◌∙◌, true, false, Option, none, some, List, [], ◌∷◌, arith,
}
use embedjson.Common.{at}
use embedjson.Config.{Config}
use embedjson.Lexer.Double.{Doubles}
use embedjson.Lexer.Encoding.{sniff}
use embedjson.Lexer.Push.Steps.{sniff_all, next_step, call_step, called}
use embedjson.Lexer.Push.{body, body_in, bytes_loop}
use embedjson.Lexer.Step.Lookup.{lookup, is_space}
use embedjson.Lexer.Step.{Loop, next, ◌>>=◌}
use embedjson.Lexer.{
  Lexer, lookup_token, Sink, Token, open_curly_bracket, close_curly_bracket, open_bracket,
  close_bracket, comma, colon,
}

-- A lexer between tokens that carries nothing of an earlier string or number.
abbrev pub resting : Lexer → Lexer
resting lex = record lex {
  state = lookup_token;
  nb = 0;
  cc = 0;
  minus = false;
  int_value = 0;
  frac_value = 0;
  frac_power = 0;
}

abbrev pub at_rest : Lexer → Option ℕ → Loop
at_rest lex chunk = record { lex = resting lex; chunk = chunk }

pub sniff-rest : (lex : Lexer) (c : ℕ) → sniff (resting lex) c ≡ resting (sniff lex c)
unfolding sniff
sniff-rest lex c = ground arith

pub sniff_all-rest :
    (cs : List ℕ) (lex : Lexer) → sniff_all (resting lex) cs ≡ resting (sniff_all lex cs)
sniff_all-rest [] lex = refl
sniff_all-rest (c ∷ cs) lex =
    ap (λ l. sniff_all l cs) (sniff-rest lex c) ∙ sniff_all-rest cs (sniff lex c)

-- The byte of a punctuation mark.
abbrev pub mark : Token → Option ℕ
mark open_curly_bracket = some b'{'
mark close_curly_bracket = some b'}'
mark open_bracket = some b'['
mark close_bracket = some b']'
mark comma = some b','
mark colon = some b':'
mark _ = none

module _ {S D : Type 0} (cfg : Config) (fl : Doubles D) (sink : Sink S D) (buf : List ℕ)
    (chunk : Option ℕ) where
  pub space_step :
      (c : ℕ) (rest : List ℕ) (lex : Lexer) (i : ℕ) (s : S)
      → is_space c ≡ true
      → bytes_loop cfg fl sink buf (c ∷ rest) i (at_rest lex chunk) s
        ≡ bytes_loop cfg fl sink buf rest (i + 1) (at_rest (sniff lex c) chunk) s
  unfolding body body_in lookup
  space_step c rest lex i s h = next_step cfg fl sink buf rest i c _ _ s s (
      ap (λ l. lookup sink i c (record { lex = l; chunk = chunk }) s) (sniff-rest lex c)
      ∙ rw h refl)

  mark_body :
      (t : Token) (c : ℕ) (lex : Lexer) (i : ℕ) (s : S)
      → mark t ≡ some c
      → lookup sink i c (at_rest lex chunk) s
        ≡ (sink.token t (at i) s >>= λ s'. next (at_rest lex chunk) s')
  unfolding lookup
  mark_body t c lex i s h = ground arith

  pub mark_step :
      (t : Token) (c : ℕ) (rest : List ℕ) (lex : Lexer) (i : ℕ) (s : S)
      → mark t ≡ some c
      → bytes_loop cfg fl sink buf (c ∷ rest) i (at_rest lex chunk) s
        ≡ called
            (sink.token t (at i) s)
            (λ s'. bytes_loop cfg fl sink buf rest (i + 1) (at_rest (sniff lex c) chunk) s')
  unfolding body body_in
  mark_step t c rest lex i s h = call_step cfg fl sink buf rest i c _ _ s _ (
      ap (λ l. lookup sink i c (record { lex = l; chunk = chunk }) s) (sniff-rest lex c)
      ∙ mark_body t c (sniff lex c) i s h)
