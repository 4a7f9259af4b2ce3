-- ===== src/UnitTests/LexerTests/Structure.antt =====
-- The test cases 1 to 5 of ut_lexer.c.
use embedjson.Base.{ℕ, List, [], ◌∷◌}
use embedjson.Base.Ints.{ℤ, pos, negated}
use embedjson.Common.Messages.Numbers.{bytes_of}
use embedjson.Lexer.{
  open_curly_bracket, close_curly_bracket, open_bracket, close_bracket, comma, colon, true_token,
  false_token, null_token,
}
use embedjson.UnitTests.LexerTests.{
  TestCase, chunk, plain, valued, integer, str, lexer_token, token_number, token_string_begin,
  token_string_chunk, token_string_end,
}

abbrev json_01 : List ℕ
json_01 = bytes_of "{}"

abbrev pub test_01 : {D : Type 0} → (ℤ → ℤ → D) → TestCase D
test_01 literal = record {
  name = "empty object";
  data_chunks = json_01 ∷ [];
  tokens = plain (lexer_token open_curly_bracket) ∷ plain (lexer_token close_curly_bracket) ∷ [];
}

abbrev json_02 : List ℕ
json_02 = bytes_of "\"hello, world\""

abbrev pub test_02 : {D : Type 0} → (ℤ → ℤ → D) → TestCase D
test_02 literal = record {
  name = "string split into two chunks";
  data_chunks = chunk json_02 0 7 ∷ chunk json_02 7 7 ∷ [];
  tokens =
      plain token_string_begin
      ∷ valued token_string_chunk (str (bytes_of "hello,"))
      ∷ valued token_string_chunk (str (bytes_of " world"))
      ∷ plain token_string_end
      ∷ [];
}

abbrev json_03 : List ℕ
json_03 = bytes_of "true false null"

abbrev pub test_03 : {D : Type 0} → (ℤ → ℤ → D) → TestCase D
test_03 literal = record {
  name = "string literals: true false null";
  data_chunks = chunk json_03 0 3 ∷ chunk json_03 3 5 ∷ chunk json_03 8 7 ∷ [];
  tokens =
      plain (lexer_token true_token)
      ∷ plain (lexer_token false_token)
      ∷ plain (lexer_token null_token)
      ∷ [];
}

abbrev json_04 : List ℕ
json_04 = bytes_of "10 0 -99999"

abbrev pub test_04 : {D : Type 0} → (ℤ → ℤ → D) → TestCase D
test_04 literal = record {
  name = "integers: 10 0 -99999";
  data_chunks = chunk json_04 0 1 ∷ chunk json_04 1 2 ∷ chunk json_04 3 3 ∷ chunk json_04 6 5 ∷ [];
  tokens =
      valued token_number (integer (pos 10))
      ∷ valued token_number (integer (pos 0))
      ∷ valued token_number (integer (negated 99999))
      ∷ [];
}

abbrev json_05 : List ℕ
json_05 =
    b'{' ∷ b'}' ∷ b'[' ∷ b']' ∷ b':' ∷ b',' ∷ 0x20 ∷ b'{' ∷ 0x0a ∷ b'{' ∷ 0x09 ∷ b'[' ∷ 0x20 ∷ 0x0d
    ∷ 0x20 ∷ b']' ∷ 0x0a ∷ b'}' ∷ 0x0d ∷ b'}' ∷ []

abbrev pub test_05 : {D : Type 0} → (ℤ → ℤ → D) → TestCase D
test_05 literal = record {
  name = "brackets, comma and colon separated by escaped wss";
  data_chunks = json_05 ∷ [];
  tokens =
      plain (lexer_token open_curly_bracket)
      ∷ plain (lexer_token close_curly_bracket)
      ∷ plain (lexer_token open_bracket)
      ∷ plain (lexer_token close_bracket)
      ∷ plain (lexer_token colon)
      ∷ plain (lexer_token comma)
      ∷ plain (lexer_token open_curly_bracket)
      ∷ plain (lexer_token open_curly_bracket)
      ∷ plain (lexer_token open_bracket)
      ∷ plain (lexer_token close_bracket)
      ∷ plain (lexer_token close_curly_bracket)
      ∷ plain (lexer_token close_curly_bracket)
      ∷ [];
}
