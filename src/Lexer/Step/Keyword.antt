-- ===== src/Lexer/Step/Keyword.antt =====
-- `case LEXER_STATE_IN_TRUE`, `case LEXER_STATE_IN_FALSE` and `case LEXER_STATE_IN_NULL`
use embedjson.Base.{
  ℕ, ◌+◌, ◌%◌, List, [], ◌∷◌, Option, none, some, get_elem?, ltb, ◌==◌, if◌then◌else◌,
}
use embedjson.Common.{ErrorCode, bad_true, bad_false, bad_null, at}
use embedjson.Lexer.{Token, true_token, false_token, null_token, lookup_token, Sink}
use embedjson.Lexer.Step.{Loop, Turn, next, crash, ◌>>=◌, give_up, with_lexer}

-- The string literals, each with its terminating zero.
abbrev pub true_text : List ℕ
true_text = b't' ∷ b'r' ∷ b'u' ∷ b'e' ∷ 0 ∷ []

abbrev pub false_text : List ℕ
false_text = b'f' ∷ b'a' ∷ b'l' ∷ b's' ∷ b'e' ∷ 0 ∷ []

abbrev pub null_text : List ℕ
null_text = b'n' ∷ b'u' ∷ b'l' ∷ b'l' ∷ 0 ∷ []

module _ {S D : Type 0} (sink : Sink S D) (i c : ℕ) (v : Loop) (s : S) where
  -- What the three share: the letter of the literal at the offset (`none` out of bounds), the index
  -- of the literal's last letter, the error and the token.
  unfoldable pub keyword_at : Option ℕ → ℕ → ErrorCode → Token → Turn S
  keyword_at none last code t = crash
  keyword_at (some expected) last code t =
      let offset = (v.lex.offset + 1) % 256 in
      if c == expected
      then if ltb last offset
        then (do
          s' ← sink.token t (at i) s
          next (with_lexer v (record v.lex { offset = offset; state = lookup_token })) s')
        else next (with_lexer v (record v.lex { offset = offset })) s
      else give_up (sink.error_ex code (at i) s)

  unfoldable pub keyword_true : Turn S
  keyword_true = keyword_at (get_elem? true_text v.lex.offset) 3 bad_true true_token

  unfoldable pub keyword_false : Turn S
  keyword_false = keyword_at (get_elem? false_text v.lex.offset) 4 bad_false false_token

  unfoldable pub keyword_null : Turn S
  keyword_null = keyword_at (get_elem? null_text v.lex.offset) 3 bad_null null_token
