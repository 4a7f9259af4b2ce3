-- ===== src/Lexer/Step/Lookup.antt =====
-- `case LEXER_STATE_LOOKUP_TOKEN`
use embedjson.Base.{ℕ, ◌+◌, ◌-◌, Bool, true, some, ◌||◌, ◌==◌, if◌then◌else◌}
use embedjson.Common.{leading_plus, unexp_symbol, at}
use embedjson.Lexer.{
  Token, open_curly_bracket, close_curly_bracket, open_bracket, close_bracket, comma, colon,
  in_string, in_true, in_false, in_null, in_number_sign, in_number, LexerState, Sink,
}
use embedjson.Lexer.Step.{Loop, Turn, next, ◌>>=◌, give_up, is_digit, with_lexer}

abbrev pub is_space : ℕ → Bool
is_space c = c == b' ' || c == b'\n' || c == b'\r' || c == b'\t'

module _ {S D : Type 0} (sink : Sink S D) (i c : ℕ) (v : Loop) (s : S) where
  abbrev punctuation : Token → Turn S
  punctuation t = do s' ← sink.token t (at i) s; next v s'

  -- `lex.offset = 1`, for the first letter of a keyword
  abbrev keyword : LexerState → Turn S
  keyword state = next (with_lexer v (record v.lex { offset = 1; state = state })) s

  unfoldable pub lookup : Turn S
  lookup =
      if is_space c
      then next v s
      else if c == b':'
      then punctuation colon
      else if c == b','
      then punctuation comma
      else if c == b'{'
      then punctuation open_curly_bracket
      else if c == b'}'
      then punctuation close_curly_bracket
      else if c == b'['
      then punctuation open_bracket
      else if c == b']'
      then punctuation close_bracket
      else if c == b'"'
      then (do
        s' ← sink.tokenc_begin (at i) s
        next (record { lex = record v.lex { state = in_string }; chunk = some (i + 1) }) s')
      else if c == b't'
      then keyword in_true
      else if c == b'f'
      then keyword in_false
      else if c == b'n'
      then keyword in_null
      else if c == b'-'
      then next (with_lexer v (record v.lex { minus = true; state = in_number_sign })) s
      else if c == b'+'
      then give_up (sink.error_ex leading_plus (at i) s)
      else if is_digit c
      then next (with_lexer v (record v.lex { int_value = c - b'0'; state = in_number })) s
      else give_up (sink.error_ex unexp_symbol (at i) s)
