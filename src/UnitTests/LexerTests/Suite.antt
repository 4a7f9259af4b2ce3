-- ===== src/UnitTests/LexerTests/Suite.antt =====
-- The test cases 19 to 27 of ut_lexer.c.
use embedjson.Base.{ℕ, List, [], ◌∷◌}
use embedjson.Base.Ints.{ℤ, pos}
use embedjson.Common.Messages.Numbers.{bytes_of}
use embedjson.Lexer.{
  open_curly_bracket, close_curly_bracket, open_bracket, close_bracket, comma, colon,
}
use embedjson.UnitTests.LexerTests.{
  TestCase, plain, valued, fp, str, lexer_token, token_number, token_string_begin,
  token_string_chunk, token_string_end, token_error,
}

abbrev json_19 : List ℕ
json_19 = bytes_of "[\"\",]"

abbrev pub test_19 : {D : Type 0} → (ℤ → ℤ → D) → TestCase D
test_19 literal = record {
  name = "JSONTestSuite.n_array_extra_comma";
  data_chunks = json_19 ∷ [];
  tokens =
      plain (lexer_token open_bracket)
      ∷ plain token_string_begin
      ∷ plain token_string_end
      ∷ plain (lexer_token comma)
      ∷ plain (lexer_token close_bracket)
      ∷ [];
}

abbrev json_20 : List ℕ
json_20 = bytes_of "[012]"

abbrev pub test_20 : {D : Type 0} → (ℤ → ℤ → D) → TestCase D
test_20 literal = record {
  name = "JSONTestSuite.n_number_with_leading_zero";
  data_chunks = json_20 ∷ [];
  tokens = plain (lexer_token open_bracket) ∷ plain token_error ∷ [];
}

abbrev json_21 : List ℕ
json_21 = bytes_of "{\"a\":[]}"

abbrev pub test_21 : {D : Type 0} → (ℤ → ℤ → D) → TestCase D
test_21 literal = record {
  name = "JSONTestSuite.y_object_simple";
  data_chunks = json_21 ∷ [];
  tokens =
      plain (lexer_token open_curly_bracket)
      ∷ plain token_string_begin
      ∷ valued token_string_chunk (str (bytes_of "a"))
      ∷ plain token_string_end
      ∷ plain (lexer_token colon)
      ∷ plain (lexer_token open_bracket)
      ∷ plain (lexer_token close_bracket)
      ∷ plain (lexer_token close_curly_bracket)
      ∷ [];
}

abbrev json_22 : List ℕ
json_22 = bytes_of "[+1]"

abbrev pub test_22 : {D : Type 0} → (ℤ → ℤ → D) → TestCase D
test_22 literal = record {
  name = "JSONTestSuite.n_number_+1";
  data_chunks = json_22 ∷ [];
  tokens = plain (lexer_token open_bracket) ∷ plain token_error ∷ [];
}

abbrev json_23 : List ℕ
json_23 = bytes_of "[123e65]"

abbrev pub test_23 : {D : Type 0} → (ℤ → ℤ → D) → TestCase D
test_23 literal = record {
  name = "JSONTestSuite.y_number";
  data_chunks = json_23 ∷ [];
  tokens =
      plain (lexer_token open_bracket)
      ∷ valued token_number (fp (literal (pos 123) (pos 65)))
      ∷ plain (lexer_token close_bracket)
      ∷ [];
}

abbrev json_24 : List ℕ
json_24 = b'[' ∷ 0x22 ∷ 0x5c ∷ 0x00 ∷ 0x22 ∷ b']' ∷ []

abbrev pub test_24 : {D : Type 0} → (ℤ → ℤ → D) → TestCase D
test_24 literal = record {
  name = "JSONTestSuite.n_string_backslash_00";
  data_chunks = json_24 ∷ [];
  tokens = plain (lexer_token open_bracket) ∷ plain token_string_begin ∷ plain token_error ∷ [];
}

abbrev json_25 : List ℕ
json_25 = bytes_of "[\"\\x00\"]"

abbrev pub test_25 : {D : Type 0} → (ℤ → ℤ → D) → TestCase D
test_25 literal = record {
  name = "JSONTestSuite.n_string_escape_x";
  data_chunks = json_25 ∷ [];
  tokens = plain (lexer_token open_bracket) ∷ plain token_string_begin ∷ plain token_error ∷ [];
}

abbrev json_26 : List ℕ
json_26 = b'[' ∷ 0x22 ∷ 0x5c ∷ 0x09 ∷ 0x22 ∷ b']' ∷ []

abbrev pub test_26 : {D : Type 0} → (ℤ → ℤ → D) → TestCase D
test_26 literal = record {
  name = "JSONTestSuite.n_string_escaped_ctrl_char_tab";
  data_chunks = json_26 ∷ [];
  tokens = plain (lexer_token open_bracket) ∷ plain token_string_begin ∷ plain token_error ∷ [];
}

abbrev json_27 : List ℕ
json_27 = b'[' ∷ 0x22 ∷ 0x5c ∷ 0xf0 ∷ 0x9f ∷ 0x8c ∷ 0x80 ∷ 0x22 ∷ b']' ∷ []

abbrev pub test_27 : {D : Type 0} → (ℤ → ℤ → D) → TestCase D
test_27 literal = record {
  name = "JSONTestSuite.n_string_escaped_emoji";
  data_chunks = json_27 ∷ [];
  tokens = plain (lexer_token open_bracket) ∷ plain token_string_begin ∷ plain token_error ∷ [];
}
