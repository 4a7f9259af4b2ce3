-- ===== src/UnitTests/LexerTests/Exponents.antt =====
-- The test cases 35 to 43 of ut_lexer.c.
use embedjson.Base.{ℕ, List, [], ◌∷◌, ◌++◌}
use embedjson.Base.Ints.{ℤ, pos}
use embedjson.Common.Messages.Numbers.{bytes_of}
use embedjson.Lexer.{open_curly_bracket, close_curly_bracket, open_bracket}
use embedjson.UnitTests.LexerTests.{
  TestCase, plain, valued, integer, str, lexer_token, token_bignum_begin, token_bignum_chunk,
  token_bignum_end, token_error,
}

abbrev json_35 : List ℕ
json_35 =
    bytes_of "[0.4e00669999999999999999999999999999999999999999999999999999999999999"
    ++ bytes_of "999999999999999999999999999999999999999999999999999999969999999006]"

abbrev pub test_35 : {D : Type 0} → (ℤ → ℤ → D) → TestCase D
test_35 literal = record {
  name = "JSONTestSuite.i_number_huge_exp";
  data_chunks = json_35 ∷ [];
  tokens = plain (lexer_token open_bracket) ∷ plain token_error ∷ [];
}

abbrev json_36 : List ℕ
json_36 = bytes_of "[-1e+9999]"

abbrev pub test_36 : {D : Type 0} → (ℤ → ℤ → D) → TestCase D
test_36 literal = record {
  name = "JSONTestSuite.i_number_neg_int_huge_exp";
  data_chunks = json_36 ∷ [];
  tokens = plain (lexer_token open_bracket) ∷ plain token_error ∷ [];
}

abbrev json_37 : List ℕ
json_37 = bytes_of "[1.5e+9999]"

abbrev pub test_37 : {D : Type 0} → (ℤ → ℤ → D) → TestCase D
test_37 literal = record {
  name = "JSONTestSuite.i_number_pos_double_huge_exp";
  data_chunks = json_37 ∷ [];
  tokens = plain (lexer_token open_bracket) ∷ plain token_error ∷ [];
}

abbrev json_38 : List ℕ
json_38 = bytes_of "[-123123e100000]"

abbrev pub test_38 : {D : Type 0} → (ℤ → ℤ → D) → TestCase D
test_38 literal = record {
  name = "JSONTestSuite.i_number_real_neg_overflow";
  data_chunks = json_38 ∷ [];
  tokens = plain (lexer_token open_bracket) ∷ plain token_error ∷ [];
}

abbrev json_39 : List ℕ
json_39 = bytes_of "[123123e100000]"

abbrev pub test_39 : {D : Type 0} → (ℤ → ℤ → D) → TestCase D
test_39 literal = record {
  name = "JSONTestSuite.i_number_real_pos_overflow";
  data_chunks = json_39 ∷ [];
  tokens = plain (lexer_token open_bracket) ∷ plain token_error ∷ [];
}

abbrev json_40 : List ℕ
json_40 = bytes_of "[123e-10000000]"

abbrev pub test_40 : {D : Type 0} → (ℤ → ℤ → D) → TestCase D
test_40 literal = record {
  name = "JSONTestSuite.i_number_real_underflow";
  data_chunks = json_40 ∷ [];
  tokens = plain (lexer_token open_bracket) ∷ plain token_error ∷ [];
}

abbrev json_41 : List ℕ
json_41 = bytes_of "{9999E9999:1}"

abbrev pub test_41 : {D : Type 0} → (ℤ → ℤ → D) → TestCase D
test_41 literal = record {
  name = "JSONTestSuite.n_object_non_string_key_but_huge_number_instead";
  data_chunks = json_41 ∷ [];
  tokens = plain (lexer_token open_curly_bracket) ∷ plain token_error ∷ [];
}

abbrev json_42 : List ℕ
json_42 = bytes_of "{1000000000000000000000000000000000}"

abbrev pub test_42 : {D : Type 0} → (ℤ → ℤ → D) → TestCase D
test_42 literal = record {
  name = "valid big integer";
  data_chunks = json_42 ∷ [];
  tokens =
      plain (lexer_token open_curly_bracket)
      ∷ valued token_bignum_begin (integer (pos 1000000000000000000))
      ∷ valued token_bignum_chunk (str (bytes_of "00000000000000"))
      ∷ plain token_bignum_end
      ∷ plain (lexer_token close_curly_bracket)
      ∷ [];
}

abbrev json_43 : List ℕ
json_43 = bytes_of "1000000000000000000000000000000000"

abbrev pub test_43 : {D : Type 0} → (ℤ → ℤ → D) → TestCase D
test_43 literal = record {
  name = "just big integer";
  data_chunks = json_43 ∷ [];
  tokens =
      valued token_bignum_begin (integer (pos 1000000000000000000))
      ∷ valued token_bignum_chunk (str (bytes_of "00000000000000"))
      ∷ plain token_bignum_end
      ∷ [];
}
