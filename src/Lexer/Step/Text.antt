-- ===== src/Lexer/Step/Text.antt =====
-- `case LEXER_STATE_IN_STRING`, `case LEXER_STATE_IN_STRING_ESCAPE` and
-- `case LEXER_STATE_IN_STRING_UNICODE_ESCAPE`
pub mod Plain
pub mod Unicode
use embedjson.Base.{
  ℕ, ◌+◌, ◌-◌, ◌*◌, ◌%◌, bit_or, List, [], ◌∷◌, Option, none, some, ◌&&◌, leb, ltb, ◌==◌,
  if◌then◌else◌,
}
use embedjson.Common.{bad_utf8, long_utf8, bad_escape, bad_unicode_escape, at, elsewhere}
use embedjson.Config.{Config}
use embedjson.Lexer.{
  Lexer, in_string, in_string_escape, in_string_unicode_escape, lookup_token, Sink,
}
use embedjson.Lexer.Step.{
  Loop, Turn, next, ◌>>=◌, give_up, is_digit, with_lexer, enter, flush_string,
}
use embedjson.Lexer.Utf8.{continuation, Lead, lead, long, neither, leading}

-- The value of a hexadecimal digit.
unfoldable pub hex_value : ℕ → Option ℕ
hex_value c =
    if is_digit c
    then some (c - b'0')
    else if leb b'a' c && leb c b'f'
    then some (10 + c - b'a')
    else if leb b'A' c && leb c b'F'
    then some (10 + c - b'A')
    else none

-- The byte that a short escape sequence stands for, by its letter.
unfoldable pub unescape : ℕ → Option ℕ
unescape c =
    if c == b'"'
    then some b'"'
    else if c == b'\\'
    then some b'\\'
    else if c == b'/'
    then some b'/'
    else if c == b'b'
    then some 8
    else if c == b'f'
    then some 12
    else if c == b'n'
    then some b'\n'
    else if c == b'r'
    then some b'\r'
    else if c == b't'
    then some b'\t'
    else none

module _ {S D : Type 0} (cfg : Config) (sink : Sink S D) (buf : List ℕ) (i c : ℕ) (s : S) where
  -- The block behind the tests of the leading byte. The last test is compiled in with the
  -- validation only.
  unfoldable pub string_plain : Loop → Turn S
  string_plain v =
      if c == b'\\'
      then (do s' ← flush_string sink buf v.chunk i s; next (enter v in_string_escape) s')
      else if c == b'"'
      then (do
        s' ← flush_string sink buf v.chunk i s
        s'' ← sink.tokenc_end (at i) s'
        next (enter v lookup_token) s'')
      else if cfg.validate_utf8 && (v.lex.nb == 0 && ltb c 0x20)
      then give_up (sink.error_ex bad_utf8 (at i) s)
      else next v s

  unfoldable pub string_led : Loop → Lead → Turn S
  string_led v (lead lex) = next (with_lexer v lex) s
  string_led v long = give_up (sink.error_ex long_utf8 (at i) s)
  string_led v (neither lex) = string_plain (with_lexer v lex)

  unfoldable pub string_checked : Loop → Option Lexer → Turn S
  string_checked v none = give_up (sink.error_ex bad_utf8 (at i) s)
  string_checked v (some lex) = string_led v (leading lex c)

  unfoldable pub string : Loop → Turn S
  string v = if cfg.validate_utf8 then string_checked v (continuation v.lex c) else string_plain v

module _ {S D : Type 0} (sink : Sink S D) (i c : ℕ) (v : Loop) (s : S) where
  unfoldable pub escaped : Option ℕ → Turn S
  escaped (some b) = do
    s' ← sink.tokenc elsewhere (b ∷ []) s
    next (record { lex = record v.lex { state = in_string }; chunk = some (i + 1) }) s'
  escaped none =
      if c == b'u'
      then next (with_lexer v (record v.lex { state = in_string_unicode_escape; offset = 0 })) s
      else give_up (sink.error_ex bad_escape (at i) s)

  unfoldable pub string_escape : Turn S
  string_escape = escaped (unescape c)

  -- `char` values are kept as bit patterns. There is no `default`.
  unfoldable pub unicode_digit : ℕ → Turn S
  unicode_digit value =
      let lex = v.lex in
      let counted = (lex.offset + 1) % 256 in
      let low = bit_or lex.unicode_lo value in
      if lex.offset == 0
      then next (with_lexer v (record lex { unicode_hi = value * 16; offset = counted })) s
      else if lex.offset == 1
      then next
          (with_lexer v (record lex { unicode_hi = bit_or lex.unicode_hi value; offset = counted }))
          s
      else if lex.offset == 2
      then next (with_lexer v (record lex { unicode_lo = value * 16; offset = counted })) s
      else if lex.offset == 3
      then (do
        s' ← sink.tokenc elsewhere (lex.unicode_hi ∷ low ∷ []) s
        next
            (record {
              lex = record lex { unicode_lo = low; offset = counted; state = in_string };
              chunk = some (i + 1);
            })
            s')
      else next (with_lexer v (record lex { offset = counted })) s

  unfoldable pub unicode_escaped : Option ℕ → Turn S
  unicode_escaped (some value) = unicode_digit value
  unicode_escaped none = give_up (sink.error_ex bad_unicode_escape (at i) s)

  unfoldable pub string_unicode_escape : Turn S
  string_unicode_escape = unicode_escaped (hex_value c)
