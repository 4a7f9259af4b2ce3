-- ===== src/UnitTests/LexerTests/Escapes.antt =====
-- The test cases 28 to 34 of ut_lexer.c.
use embedjson.Base.{ℕ, List, [], ◌∷◌}
use embedjson.Base.Ints.{ℤ}
use embedjson.Common.Messages.Numbers.{bytes_of}
use embedjson.Lexer.{open_bracket}
use embedjson.UnitTests.LexerTests.{
  TestCase, plain, valued, str, lexer_token, token_string_begin, token_string_chunk, token_error,
}

abbrev json_28 : List ℕ
json_28 = bytes_of "[\"\\uD800\\uD800\\x\"]"

abbrev pub test_28 : {D : Type 0} → (ℤ → ℤ → D) → TestCase D
test_28 literal = record {
  name = "JSONTestSuite.n_string_incomplete_surrogate_escape_invalid";
  data_chunks = json_28 ∷ [];
  tokens =
      plain (lexer_token open_bracket)
      ∷ plain token_string_begin
      ∷ valued token_string_chunk (str (0xd8 ∷ 0x00 ∷ []))
      ∷ valued token_string_chunk (str (0xd8 ∷ 0x00 ∷ []))
      ∷ plain token_error
      ∷ [];
}

abbrev json_29 : List ℕ
json_29 = bytes_of "[\"\\a\"]"

abbrev pub test_29 : {D : Type 0} → (ℤ → ℤ → D) → TestCase D
test_29 literal = record {
  name = "JSONTestSuite.n_string_invalid_backslash_esc";
  data_chunks = json_29 ∷ [];
  tokens = plain (lexer_token open_bracket) ∷ plain token_string_begin ∷ plain token_error ∷ [];
}

abbrev json_30 : List ℕ
json_30 = bytes_of "\"\\UA66D\""

abbrev pub test_30 : {D : Type 0} → (ℤ → ℤ → D) → TestCase D
test_30 literal = record {
  name = "JSONTestSuite.n_string_invalid_utf8_after_escape";
  data_chunks = json_30 ∷ [];
  tokens = plain token_string_begin ∷ plain token_error ∷ [];
}

abbrev json_31 : List ℕ
json_31 = b'[' ∷ 0x22 ∷ 0x5c ∷ 0xe5 ∷ 0x22 ∷ b']' ∷ []

abbrev pub test_31 : {D : Type 0} → (ℤ → ℤ → D) → TestCase D
test_31 literal = record {
  name = "JSONTestSuite.n_string_unicode_CapitalU";
  data_chunks = json_31 ∷ [];
  tokens = plain (lexer_token open_bracket) ∷ plain token_string_begin ∷ plain token_error ∷ [];
}

abbrev json_32 : List ℕ
json_32 = b'[' ∷ 0x22 ∷ b'a' ∷ 0x0a ∷ 0x22 ∷ b']' ∷ []

abbrev pub test_32 : {D : Type 0} → (ℤ → ℤ → D) → TestCase D
test_32 literal = record {
  name = "JSONTestSuite.n_string_unescaped_ctrl_char";
  data_chunks = json_32 ∷ [];
  tokens = plain (lexer_token open_bracket) ∷ plain token_string_begin ∷ plain token_error ∷ [];
}

abbrev json_33 : List ℕ
json_33 = b'[' ∷ 0x22 ∷ 0x09 ∷ 0x22 ∷ b']' ∷ []

abbrev pub test_33 : {D : Type 0} → (ℤ → ℤ → D) → TestCase D
test_33 literal = record {
  name = "JSONTestSuite.n_string_unescaped_newline";
  data_chunks = json_33 ∷ [];
  tokens = plain (lexer_token open_bracket) ∷ plain token_string_begin ∷ plain token_error ∷ [];
}

abbrev json_34 : List ℕ
json_34 = b'[' ∷ 0x22 ∷ b'n' ∷ b'e' ∷ b'w' ∷ 0x0a ∷ b'l' ∷ b'i' ∷ b'n' ∷ b'e' ∷ 0x22 ∷ b']' ∷ []

abbrev pub test_34 : {D : Type 0} → (ℤ → ℤ → D) → TestCase D
test_34 literal = record {
  name = "JSONTestSuite.n_string_unescaped_tab";
  data_chunks = json_34 ∷ [];
  tokens = plain (lexer_token open_bracket) ∷ plain token_string_begin ∷ plain token_error ∷ [];
}
