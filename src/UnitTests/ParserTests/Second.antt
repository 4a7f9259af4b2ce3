-- ===== src/UnitTests/ParserTests/Second.antt =====
-- The test cases 11 to 30 of ut_parser.c.
use embedjson.Base.{ℕ, List, [], ◌∷◌}
use embedjson.Common.Messages.Numbers.{bytes_of}
use embedjson.UnitTests.ParserTests.{
  TestCase, call_int, call_double, call_string_begin, call_string_chunk, call_string_end,
  call_begin_object, call_end_object, call_begin_array, call_end_array, call_error,
}

abbrev json_11 : List ℕ
json_11 = bytes_of "[012]"

abbrev pub test_11 : TestCase
test_11 = record {
  name = "JSONTestSuite.n_number_with_leading_zero";
  data_chunks = json_11 ∷ [];
  calls = call_begin_array ∷ call_error ∷ [];
}

abbrev json_12 : List ℕ
json_12 = bytes_of "[1]x"

abbrev pub test_12 : TestCase
test_12 = record {
  name = "JSONTestSuite.n_structure_array_trailing_garbage";
  data_chunks = json_12 ∷ [];
  calls = call_begin_array ∷ call_int ∷ call_end_array ∷ call_error ∷ [];
}

abbrev json_13 : List ℕ
json_13 = bytes_of "2@"

abbrev pub test_13 : TestCase
test_13 = record {
  name = "JSONTestSuite.n_structure_number_with_trailing_garbage";
  data_chunks = json_13 ∷ [];
  calls = call_int ∷ call_error ∷ [];
}

abbrev json_14 : List ℕ
json_14 = bytes_of "{\"a\":[]}"

abbrev pub test_14 : TestCase
test_14 = record {
  name = "JSONTestSuite.y_object_simple";
  data_chunks = json_14 ∷ [];
  calls =
      call_begin_object ∷ call_string_begin ∷ call_string_chunk ∷ call_string_end ∷ call_begin_array
      ∷ call_end_array ∷ call_end_object ∷ [];
}

abbrev json_15 : List ℕ
json_15 = bytes_of "[+1]"

abbrev pub test_15 : TestCase
test_15 = record {
  name = "JSONTestSuite.n_number_+1";
  data_chunks = json_15 ∷ [];
  calls = call_begin_array ∷ call_error ∷ [];
}

abbrev json_16 : List ℕ
json_16 = bytes_of "[-2.]"

abbrev pub test_16 : TestCase
test_16 = record {
  name = "JSONTestSuite.n_number_-2.";
  data_chunks = json_16 ∷ [];
  calls = call_begin_array ∷ call_error ∷ [];
}

abbrev json_17 : List ℕ
json_17 = bytes_of "[0.3e+]"

abbrev pub test_17 : TestCase
test_17 = record {
  name = "JSONTestSuite.n_number_0.3e+";
  data_chunks = json_17 ∷ [];
  calls = call_begin_array ∷ call_error ∷ [];
}

abbrev json_18 : List ℕ
json_18 = bytes_of "[0.e1]"

abbrev pub test_18 : TestCase
test_18 = record {
  name = "JSONTestSuite.n_number_0.e1";
  data_chunks = json_18 ∷ [];
  calls = call_begin_array ∷ call_error ∷ [];
}

abbrev json_19 : List ℕ
json_19 = bytes_of "[1.0e+]"

abbrev pub test_19 : TestCase
test_19 = record {
  name = "JSONTestSuite.n_number_1.0e+";
  data_chunks = json_19 ∷ [];
  calls = call_begin_array ∷ call_error ∷ [];
}

abbrev json_20 : List ℕ
json_20 = bytes_of "[1.0e-]"

abbrev pub test_20 : TestCase
test_20 = record {
  name = "JSONTestSuite.n_number_1.0e-";
  data_chunks = json_20 ∷ [];
  calls = call_begin_array ∷ call_error ∷ [];
}

abbrev json_21 : List ℕ
json_21 = bytes_of "[2.e+3]"

abbrev pub test_21 : TestCase
test_21 = record {
  name = "JSONTestSuite.n_number_2.e+3";
  data_chunks = json_21 ∷ [];
  calls = call_begin_array ∷ call_error ∷ [];
}

abbrev json_22 : List ℕ
json_22 = bytes_of "[2.e-3]"

abbrev pub test_22 : TestCase
test_22 = record {
  name = "JSONTestSuite.n_number_2.e-3";
  data_chunks = json_22 ∷ [];
  calls = call_begin_array ∷ call_error ∷ [];
}

abbrev json_23 : List ℕ
json_23 = bytes_of "[2.e3]"

abbrev pub test_23 : TestCase
test_23 = record {
  name = "JSONTestSuite.n_number_2.e3";
  data_chunks = json_23 ∷ [];
  calls = call_begin_array ∷ call_error ∷ [];
}

abbrev json_24 : List ℕ
json_24 = bytes_of "[9.e+]"

abbrev pub test_24 : TestCase
test_24 = record {
  name = "JSONTestSuite.n_number_9.e+";
  data_chunks = json_24 ∷ [];
  calls = call_begin_array ∷ call_error ∷ [];
}

abbrev json_25 : List ℕ
json_25 = bytes_of "[1.]"

abbrev pub test_25 : TestCase
test_25 = record {
  name = "JSONTestSuite.n_number_real_without_fractional_part";
  data_chunks = json_25 ∷ [];
  calls = call_begin_array ∷ call_error ∷ [];
}

abbrev json_26 : List ℕ
json_26 = bytes_of "[123e65]"

abbrev pub test_26 : TestCase
test_26 = record {
  name = "JSONTestSuite.y_number";
  data_chunks = json_26 ∷ [];
  calls = call_begin_array ∷ call_double ∷ call_end_array ∷ [];
}

abbrev json_27 : List ℕ
json_27 = bytes_of "[1E+2]"

abbrev pub test_27 : TestCase
test_27 = record {
  name = "JSONTestSuite.y_number_real_capital_e_neg_exp";
  data_chunks = json_27 ∷ [];
  calls = call_begin_array ∷ call_double ∷ call_end_array ∷ [];
}

abbrev json_28 : List ℕ
json_28 = bytes_of "[1E-2]"

abbrev pub test_28 : TestCase
test_28 = record {
  name = "JSONTestSuite.y_number_real_capital_e_pos_exp";
  data_chunks = json_28 ∷ [];
  calls = call_begin_array ∷ call_double ∷ call_end_array ∷ [];
}

abbrev json_29 : List ℕ
json_29 = bytes_of "[1e-2]"

abbrev pub test_29 : TestCase
test_29 = record {
  name = "JSONTestSuite.y_number_real_neg_exp";
  data_chunks = json_29 ∷ [];
  calls = call_begin_array ∷ call_double ∷ call_end_array ∷ [];
}

abbrev json_30 : List ℕ
json_30 = bytes_of "[1e+2]"

abbrev pub test_30 : TestCase
test_30 = record {
  name = "JSONTestSuite.y_number_real_pos_exponent";
  data_chunks = json_30 ∷ [];
  calls = call_begin_array ∷ call_double ∷ call_end_array ∷ [];
}
