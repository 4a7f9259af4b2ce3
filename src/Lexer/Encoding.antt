-- ===== src/Lexer/Encoding.antt =====
-- The guess at the encoding in `embedjson_lexer_push` of lexer.c.
pub mod Swapped
use embedjson.Base.{
  ℕ, ◌+◌, ◌*◌, bit_or, Bool, true, false, List, get_or, set, ltb, ◌==◌, if◌then◌else◌,
}
use embedjson.Lexer.{TextEncoding, unknown, utf8, utf16le, utf16be, utf32le, utf32be, Lexer}

-- `magic.as_int` on x86, which keeps the lowest byte first; as the bit pattern of the `int`
unfoldable pub as_int : List ℕ → ℕ
as_int m = get_or m 0 0 + 256 * get_or m 1 0 + 65536 * get_or m 2 0 + 16777216 * get_or m 3 0

-- `(magic | mask) == mask`
abbrev pub within : ℕ → ℕ → Bool
within magic mask = bit_or magic mask == mask

unfoldable pub detect : ℕ → TextEncoding
detect magic =
    if within magic 0x000000FF
    then utf32be
    else if within magic 0xFF000000
    then utf32le
    else if within magic 0x00FF00FF
    then utf16be
    else if within magic 0xFF00FF00
    then utf16le
    else utf8

abbrev pub is_unknown : TextEncoding → Bool
is_unknown unknown = true
is_unknown _ = false

-- The head of the loop's body, run at each iteration.
unfoldable pub sniff : Lexer → ℕ → Lexer
sniff lex c =
    if ltb lex.magic_bytes_read 4
    then record lex {
      magic = set lex.magic lex.magic_bytes_read c;
      magic_bytes_read = lex.magic_bytes_read + 1;
    }
    else if is_unknown lex.encoding
    then record lex { encoding = detect (as_int lex.magic) }
    else lex
