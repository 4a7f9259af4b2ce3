-- ===== src/UnitTests/ParserTests/First.antt =====
-- The test cases 1 to 10 of ut_parser.c.
use embedjson.Base.{ℕ, List, [], ◌∷◌}
use embedjson.Common.Messages.Numbers.{bytes_of}
use embedjson.UnitTests.ParserTests.{
  TestCase, chunk, call_null, call_bool, call_int, call_double, call_string_begin,
  call_string_chunk, call_string_end, call_begin_object, call_end_object, call_begin_array,
  call_end_array, call_error,
}

abbrev json_01 : List ℕ
json_01 = bytes_of "{}"

abbrev pub test_01 : TestCase
test_01 = record {
  name = "empty object";
  data_chunks = json_01 ∷ [];
  calls = call_begin_object ∷ call_end_object ∷ [];
}

abbrev json_02 : List ℕ
json_02 = bytes_of "[{}, null]"

abbrev pub test_02 : TestCase
test_02 = record {
  name = "array with nested object";
  data_chunks = json_02 ∷ [];
  calls = call_begin_array ∷ call_begin_object ∷ call_end_object ∷ call_null ∷ call_end_array ∷ [];
}

abbrev json_03 : List ℕ
json_03 = bytes_of "{\"a\":{\"b\":true, \"c\":[1, 2]}, \"d\":null}"

abbrev pub test_03 : TestCase
test_03 = record {
  name = "three nesting levels";
  data_chunks = json_03 ∷ [];
  calls =
      call_begin_object ∷ call_string_begin ∷ call_string_chunk ∷ call_string_end
      ∷ call_begin_object ∷ call_string_begin ∷ call_string_chunk ∷ call_string_end ∷ call_bool
      ∷ call_string_begin ∷ call_string_chunk ∷ call_string_end ∷ call_begin_array ∷ call_int
      ∷ call_int ∷ call_end_array ∷ call_end_object ∷ call_string_begin ∷ call_string_chunk
      ∷ call_string_end ∷ call_null ∷ call_end_object ∷ [];
}

abbrev json_04 : List ℕ
json_04 = bytes_of "[]"

abbrev pub test_04 : TestCase
test_04 = record {
  name = "empty array";
  data_chunks = json_04 ∷ [];
  calls = call_begin_array ∷ call_end_array ∷ [];
}

abbrev json_05 : List ℕ
json_05 = bytes_of "[{}, [], {\"a\":[{ }]}]"

abbrev pub test_05 : TestCase
test_05 = record {
  name = "nested empty arrays and objects";
  data_chunks = json_05 ∷ [];
  calls =
      call_begin_array ∷ call_begin_object ∷ call_end_object ∷ call_begin_array ∷ call_end_array
      ∷ call_begin_object ∷ call_string_begin ∷ call_string_chunk ∷ call_string_end
      ∷ call_begin_array ∷ call_begin_object ∷ call_end_object ∷ call_end_array ∷ call_end_object
      ∷ call_end_array ∷ [];
}

abbrev json_06 : List ℕ
json_06 = bytes_of "[1.0e+10, -9.1, 10]"

abbrev pub test_06 : TestCase
test_06 = record {
  name = "array of three integers [1.0e+10, -9.1, 10]";
  data_chunks = chunk json_06 0 3 ∷ chunk json_06 3 12 ∷ chunk json_06 15 4 ∷ [];
  calls = call_begin_array ∷ call_double ∷ call_double ∷ call_int ∷ call_end_array ∷ [];
}

abbrev json_07 : List ℕ
json_07 = bytes_of "[\"\",]"

abbrev pub test_07 : TestCase
test_07 = record {
  name = "JSONTestSuite.n_array_extra_comma";
  data_chunks = json_07 ∷ [];
  calls = call_begin_array ∷ call_string_begin ∷ call_string_end ∷ call_error ∷ [];
}

abbrev json_08 : List ℕ
json_08 = bytes_of "[-]"

abbrev pub test_08 : TestCase
test_08 = record {
  name = "JSONTestSuite.n_array_just_minus";
  data_chunks = json_08 ∷ [];
  calls = call_begin_array ∷ call_error ∷ [];
}

abbrev json_09 : List ℕ
json_09 = bytes_of "[*]"

abbrev pub test_09 : TestCase
test_09 = record {
  name = "JSONTestSuite.n_array_star_inside";
  data_chunks = json_09 ∷ [];
  calls = call_begin_array ∷ call_error ∷ [];
}

abbrev json_10 : List ℕ
json_10 = bytes_of "[.123]"

abbrev pub test_10 : TestCase
test_10 = record {
  name = "JSONTestSuite.n_number_starting_with_dot";
  data_chunks = json_10 ∷ [];
  calls = call_begin_array ∷ call_error ∷ [];
}
