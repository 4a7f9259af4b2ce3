-- ===== src/UnitTests/LexerTests/Strings.antt =====
-- The test cases 6 to 10 of ut_lexer.c.
use embedjson.Base.{ℕ, List, [], ◌∷◌}
use embedjson.Base.Ints.{ℤ, pos, negated}
use embedjson.Common.Messages.Numbers.{bytes_of}
use embedjson.UnitTests.LexerTests.{
  TestCase, chunk, plain, valued, fp, str, token_number, token_string_begin, token_string_chunk,
  token_string_end,
}

abbrev json_06 : List ℕ
json_06 =
    0x22 ∷ 0xd0 ∷ 0xbf ∷ 0xd1 ∷ 0x80 ∷ 0xd0 ∷ 0xb8 ∷ 0xd0 ∷ 0xb2 ∷ 0xd0 ∷ 0xb5 ∷ 0xd1 ∷ 0x82 ∷ 0x20
    ∷ 0xe5 ∷ 0x97 ∷ 0xa8 ∷ 0x20 ∷ 0xd9 ∷ 0x85 ∷ 0xd8 ∷ 0xb1 ∷ 0xd8 ∷ 0xad ∷ 0xd8 ∷ 0xa8 ∷ 0xd8
    ∷ 0xa7 ∷ 0x20 ∷ 0xe0 ∷ 0xa8 ∷ 0x85 ∷ 0xe0 ∷ 0xa8 ∷ 0xa7 ∷ 0xe0 ∷ 0xa8 ∷ 0xbf ∷ 0xe0 ∷ 0xa8
    ∷ 0x95 ∷ 0xe0 ∷ 0xa8 ∷ 0xa4 ∷ 0xe0 ∷ 0xa8 ∷ 0xae ∷ 0x20 ∷ 0xec ∷ 0x95 ∷ 0x88 ∷ 0xeb ∷ 0x85
    ∷ 0x95 ∷ 0x20 ∷ 0xdb ∷ 0x81 ∷ 0xdb ∷ 0x8c ∷ 0xd9 ∷ 0x84 ∷ 0xd9 ∷ 0x88 ∷ 0x20 ∷ 0xd1 ∷ 0x81
    ∷ 0xd3 ∷ 0x99 ∷ 0xd0 ∷ 0xbb ∷ 0xd0 ∷ 0xb0 ∷ 0xd0 ∷ 0xbc ∷ 0x20 ∷ 0xe0 ∷ 0xb8 ∷ 0xaa ∷ 0xe0
    ∷ 0xb8 ∷ 0xa7 ∷ 0xe0 ∷ 0xb8 ∷ 0xb1 ∷ 0xe0 ∷ 0xb8 ∷ 0xaa ∷ 0xe0 ∷ 0xb8 ∷ 0x94 ∷ 0xe0 ∷ 0xb8
    ∷ 0xb5 ∷ 0x20 ∷ 0xe0 ∷ 0xa4 ∷ 0xb9 ∷ 0xe0 ∷ 0xa4 ∷ 0xbe ∷ 0xe0 ∷ 0xa4 ∷ 0xaf ∷ 0x20 ∷ b'h'
    ∷ b'i' ∷ 0x22 ∷ []

abbrev pub test_06 : {D : Type 0} → (ℤ → ℤ → D) → TestCase D
test_06 literal = record {
  name = "raw unicode string";
  data_chunks = json_06 ∷ [];
  tokens =
      plain token_string_begin
      ∷ valued token_string_chunk (str (chunk json_06 1 105))
      ∷ plain token_string_end
      ∷ [];
}

abbrev json_07 : List ℕ
json_07 = bytes_of "\"\\r\\n\\t\\b\\f\\\"\""

abbrev pub test_07 : {D : Type 0} → (ℤ → ℤ → D) → TestCase D
test_07 literal = record {
  name = "ascii escaping";
  data_chunks = chunk json_07 0 4 ∷ chunk json_07 4 3 ∷ chunk json_07 7 5 ∷ chunk json_07 12 2 ∷ [];
  tokens =
      plain token_string_begin
      ∷ valued token_string_chunk (str (0x0d ∷ []))
      ∷ valued token_string_chunk (str (0x0a ∷ []))
      ∷ valued token_string_chunk (str (0x09 ∷ []))
      ∷ valued token_string_chunk (str (0x08 ∷ []))
      ∷ valued token_string_chunk (str (0x0c ∷ []))
      ∷ valued token_string_chunk (str (bytes_of "\""))
      ∷ plain token_string_end
      ∷ [];
}

abbrev json_08 : List ℕ
json_08 = bytes_of "\"\\uD0BF\\ud180\\uD0B8\\ud0B2\\uD0b5\\uD182\""

abbrev pub test_08 : {D : Type 0} → (ℤ → ℤ → D) → TestCase D
test_08 literal = record {
  name = "unicode escaping";
  data_chunks =
      chunk json_08 0 6
      ∷ chunk json_08 6 3
      ∷ chunk json_08 9 3
      ∷ chunk json_08 12 14
      ∷ chunk json_08 26 5
      ∷ chunk json_08 31 7
      ∷ [];
  tokens =
      plain token_string_begin
      ∷ valued token_string_chunk (str (0xd0 ∷ 0xbf ∷ []))
      ∷ valued token_string_chunk (str (0xd1 ∷ 0x80 ∷ []))
      ∷ valued token_string_chunk (str (0xd0 ∷ 0xb8 ∷ []))
      ∷ valued token_string_chunk (str (0xd0 ∷ 0xb2 ∷ []))
      ∷ valued token_string_chunk (str (0xd0 ∷ 0xb5 ∷ []))
      ∷ valued token_string_chunk (str (0xd1 ∷ 0x82 ∷ []))
      ∷ plain token_string_end
      ∷ [];
}

abbrev json_09 : List ℕ
json_09 = bytes_of "-10.0152e+02"

abbrev pub test_09 : {D : Type 0} → (ℤ → ℤ → D) → TestCase D
test_09 literal = record {
  name = "double -10.0152+e02";
  data_chunks = json_09 ∷ [];
  tokens = valued token_number (fp (literal (negated 100152) (negated 2))) ∷ [];
}

abbrev json_10 : List ℕ
json_10 = bytes_of "-10.0152e-2 10000.00 99.0000001"

abbrev pub test_10 : {D : Type 0} → (ℤ → ℤ → D) → TestCase D
test_10 literal = record {
  name = "reset state after parsing double, -10.0152e-2 10000.00";
  data_chunks = chunk json_10 0 6 ∷ chunk json_10 6 9 ∷ chunk json_10 15 16 ∷ [];
  tokens =
      valued token_number (fp (literal (negated 100152) (negated 6)))
      ∷ valued token_number (fp (literal (pos 10000) (pos 0)))
      ∷ valued token_number (fp (literal (pos 990000001) (negated 7)))
      ∷ [];
}
