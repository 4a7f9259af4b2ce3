-- ===== src/UnitTests/LexerTests/Utf8.antt =====
-- The test cases 11 to 18 of ut_lexer.c.
use embedjson.Base.{ℕ, List, [], ◌∷◌}
use embedjson.Base.Ints.{ℤ}
use embedjson.UnitTests.LexerTests.{TestCase, plain, token_string_begin, token_error}

abbrev json_11 : List ℕ
json_11 = 0x22 ∷ 0xd0 ∷ 0x16 ∷ 0x22 ∷ []

abbrev pub test_11 : {D : Type 0} → (ℤ → ℤ → D) → TestCase D
test_11 literal = record {
  name = "bad second byte in two-byte utf-8 sequence";
  data_chunks = json_11 ∷ [];
  tokens = plain token_string_begin ∷ plain token_error ∷ [];
}

abbrev json_12 : List ℕ
json_12 = 0x22 ∷ 0xe4 ∷ 0xb9 ∷ 0xc9 ∷ 0x22 ∷ []

abbrev pub test_12 : {D : Type 0} → (ℤ → ℤ → D) → TestCase D
test_12 literal = record {
  name = "bad third byte in three-byte utf-8 sequence";
  data_chunks = json_12 ∷ [];
  tokens = plain token_string_begin ∷ plain token_error ∷ [];
}

abbrev json_13 : List ℕ
json_13 = 0x22 ∷ 0xf0 ∷ 0x90 ∷ 0x8c ∷ 0x22 ∷ []

abbrev pub test_13 : {D : Type 0} → (ℤ → ℤ → D) → TestCase D
test_13 literal = record {
  name = "missing last byte in four-byte utf-8 sequence";
  data_chunks = json_13 ∷ [];
  tokens = plain token_string_begin ∷ plain token_error ∷ [];
}

abbrev json_14 : List ℕ
json_14 = 0x22 ∷ 0xfb ∷ 0x80 ∷ 0x80 ∷ 0x80 ∷ 0x80 ∷ 0x22 ∷ []

abbrev pub test_14 : {D : Type 0} → (ℤ → ℤ → D) → TestCase D
test_14 literal = record {
  name = "5 byte utf-8 sequence";
  data_chunks = json_14 ∷ [];
  tokens = plain token_string_begin ∷ plain token_error ∷ [];
}

abbrev json_15 : List ℕ
json_15 = 0x22 ∷ 0xe0 ∷ 0x80 ∷ 0x85 ∷ 0x22 ∷ []

abbrev pub test_15 : {D : Type 0} → (ℤ → ℤ → D) → TestCase D
test_15 literal = record {
  name = "UTF-8 non-shortest form, case 1";
  data_chunks = json_15 ∷ [];
  tokens = plain token_string_begin ∷ plain token_error ∷ [];
}

abbrev json_16 : List ℕ
json_16 = 0x22 ∷ 0xf0 ∷ 0x8f ∷ 0x80 ∷ 0x80 ∷ 0x22 ∷ []

abbrev pub test_16 : {D : Type 0} → (ℤ → ℤ → D) → TestCase D
test_16 literal = record {
  name = "UTF-8 non-shortest form, case 2";
  data_chunks = json_16 ∷ [];
  tokens = plain token_string_begin ∷ plain token_error ∷ [];
}

abbrev json_17 : List ℕ
json_17 = 0x22 ∷ 0xf4 ∷ 0xbf ∷ 0x80 ∷ 0x80 ∷ 0x22 ∷ []

abbrev pub test_17 : {D : Type 0} → (ℤ → ℤ → D) → TestCase D
test_17 literal = record {
  name = "UTF-8 non-shortest form, case 3";
  data_chunks = json_17 ∷ [];
  tokens = plain token_string_begin ∷ plain token_error ∷ [];
}

abbrev json_18 : List ℕ
json_18 =
    0x22 ∷ b'H' ∷ b'e' ∷ b'l' ∷ b'l' ∷ b'o' ∷ b',' ∷ 0x00 ∷ b'w' ∷ b'o' ∷ b'r' ∷ b'l' ∷ b'd' ∷ 0x22
    ∷ 0x20 ∷ b'n' ∷ b'u' ∷ b'l' ∷ b'l' ∷ []

abbrev pub test_18 : {D : Type 0} → (ℤ → ℤ → D) → TestCase D
test_18 literal = record {
  name = "Null character within UTF-8 string";
  data_chunks = json_18 ∷ [];
  tokens = plain token_string_begin ∷ plain token_error ∷ [];
}
