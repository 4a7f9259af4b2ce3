-- ===== src/Lexer/Utf8.antt =====
-- The validation of UTF-8 in `case LEXER_STATE_IN_STRING` of lexer.c, compiled in under
-- EMBEDJSON_VALIDATE_UTF8.
pub mod Masks
pub mod Rfc3629
pub mod Chars
use embedjson.Base.{ℕ, ◌-◌, bit_and, not, Option, none, some, ◌&&◌, ◌==◌, if◌then◌else◌}
use embedjson.Lexer.{Lexer}

-- `if (lex.nb) { … }`: a byte inside a multibyte sequence. `none` is EMBEDJSON_BAD_UTF8.
unfoldable pub continuation : Lexer → ℕ → Option Lexer
continuation lex c =
    let counted = record lex { nb = lex.nb - 1 } in
    let corner = record lex { nb = lex.nb - 1; cc = 0 } in
    if lex.nb == 0
    then some lex
    else if lex.nb == 2 && lex.cc == 1
    then if not (bit_and c 0xe0 == 0xa0) then none else some corner
    else if lex.nb == 3
    then if lex.cc == 2
      then if not (bit_and c 0xd0 == 0x90) then none else some corner
      else if lex.cc == 3
      then if not (bit_and c 0xf0 == 0x80) then none else some corner
      else some counted
    else if not (bit_and c 0xc0 == 0x80)
    then none
    else some counted

-- What the tests of the leading byte find: the first byte of a sequence, one that starts a
-- sequence of more than four bytes, or neither.
pub data Lead : Type 0 where
  lead : Lexer → Lead
  long : Lead
  neither : Lexer → Lead

unfoldable pub leading : Lexer → ℕ → Lead
leading lex c =
    if bit_and c 0xe0 == 0xc0
    then lead (record lex { nb = 1 })
    else if bit_and c 0xf0 == 0xe0
    then lead (record lex { nb = 2; cc = if c == 0xe0 then 1 else lex.cc })
    else if bit_and c 0xf8 == 0xf0
    then lead (record lex { nb = 3; cc = if c == 0xf0 then 2 else if c == 0xf4 then 3 else lex.cc })
    else if bit_and c 0xf8 == 0xf8
    then long
    else neither lex
