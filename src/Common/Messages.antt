-- ===== src/Common/Messages.antt =====
-- The values of `embedjson_error_code` of common.h, and `embedjson_strerror` of common.c, whose
-- `default` no code of the enumeration reaches.
pub mod Numbers
use Prim.Native.String.{String}
use embedjson.Base.{ℕ}
use embedjson.Common.{
  ErrorCode, no_error, bad_utf8, long_utf8, bad_unicode_escape, bad_exponent, bad_true, bad_false,
  bad_null, eof_in_string, eof_in_exponent, eof_in_true, eof_in_false, eof_in_null, stack_overflow,
  unexp_close_curly, unexp_close_bracket, unexp_comma, unexp_colon, exp_colon,
  exp_object_key_or_close_curly, exp_object_key, exp_object_value, exp_comma_or_close_bracket,
  exp_comma_or_close_curly, exp_array_value, excessive_input, insufficient_input, unexp_symbol,
  leading_zero, leading_plus, empty_frac, empty_exp, bad_escape, unescaped_control_char,
  exponent_overflow, int_overflow, internal_error,
}

-- The number that C gives to each enumerator.
abbrev pub value_of : ErrorCode → ℕ
value_of no_error = 0
value_of bad_utf8 = 1
value_of long_utf8 = 2
value_of bad_unicode_escape = 3
value_of bad_exponent = 4
value_of bad_true = 5
value_of bad_false = 6
value_of bad_null = 7
value_of eof_in_string = 8
value_of eof_in_exponent = 9
value_of eof_in_true = 10
value_of eof_in_false = 11
value_of eof_in_null = 12
value_of stack_overflow = 13
value_of unexp_close_curly = 14
value_of unexp_close_bracket = 15
value_of unexp_comma = 16
value_of unexp_colon = 17
value_of exp_colon = 18
value_of exp_object_key_or_close_curly = 19
value_of exp_object_key = 20
value_of exp_object_value = 21
value_of exp_comma_or_close_bracket = 22
value_of exp_comma_or_close_curly = 23
value_of exp_array_value = 24
value_of excessive_input = 25
value_of insufficient_input = 26
value_of unexp_symbol = 27
value_of leading_zero = 28
value_of leading_plus = 29
value_of empty_frac = 30
value_of empty_exp = 31
value_of bad_escape = 32
value_of unescaped_control_char = 33
value_of exponent_overflow = 34
value_of int_overflow = 35
value_of internal_error = 36

unfoldable pub strerror : ErrorCode → String
strerror no_error = "EMBEDJSON_OK: No error (0)"
strerror bad_utf8 = "EMBEDJSON_BAD_UTF8: Malformed UTF-8 byte sequence (1)"
strerror long_utf8 = "EMBEDJSON_LONG_UTF8: UTF-8 byte sequence more than 4 bytes long (2)"
strerror bad_unicode_escape =
    "EMBEDJSON_BAD_UNICODE_ESCAPE: Unexpected character in the unicode escape sequence (3)"
strerror bad_exponent =
    "EMBEDJSON_BAD_EXPONENT: Unexpected character in the exponent part of the floating-point number (4)"
strerror bad_true = "EMBEDJSON_BAD_TRUE: Unknown keyword, \"true\" expected (5)"
strerror bad_false = "EMBEDJSON_BAD_FALSE: Unknown keyword, \"false\" expected (6)"
strerror bad_null = "EMBEDJSON_BAD_NULL: Unknown keyword, \"null\" expected (7)"
strerror eof_in_string =
    "EMBEDJSON_EOF_IN_STRING: Got end-of-stream while parsing unicode escape sequence (8)"
strerror eof_in_exponent =
    "EMBEDJSON_EOF_IN_EXPONENT: Got end-of-stream while parsing floating-point exponent (9)"
strerror eof_in_true =
    "EMBEDJSON_EOF_IN_TRUE: Got end-of-stream while parsing \"true\" keyword (10)"
strerror eof_in_false =
    "EMBEDJSON_EOF_IN_FALSE: Got end-of-stream while parsing \"false\" keyword (11)"
strerror eof_in_null =
    "EMBEDJSON_EOF_IN_NULL: Got end-of-stream while parsing \"null\" keyword (12)"
strerror stack_overflow = "EMBEDJSON_STACK_OVERFLOW: Object/array nesting level is too big. (13)"
strerror unexp_close_curly =
    "EMBEDJSON_UNEXP_CLOSE_CURLY: Expected object, array, or primitive value, got closing curly bracket (14)"
strerror unexp_close_bracket =
    "EMBEDJSON_UNEXP_CLOSE_BRACKET: Expected object, array, or primitive value, got closing bracket (15)"
strerror unexp_comma =
    "EMBEDJSON_UNEXP_COMMA: Expected object, array, or primitive value, got comma (16)"
strerror unexp_colon =
    "EMBEDJSON_UNEXP_COLON: Expected object, array, or primitive value, got colon (17)"
strerror exp_colon = "EMBEDJSON_EXP_COLON: Expected colon following json object's key (18)"
strerror exp_object_key_or_close_curly =
    "EMBEDJSON_EXP_OBJECT_KEY_OR_CLOSE_CURLY: Expected string as object key, or close curly bracket (19)"
strerror exp_object_key = "EMBEDJSON_EXP_OBJECT_KEY: Expected string as object key (20)"
strerror exp_object_value =
    "EMBEDJSON_EXP_OBJECT_VALUE: Expected object, array, or primitive value as the value of json object (21)"
strerror exp_comma_or_close_bracket =
    "EMBEDJSON_EXP_COMMA_OR_CLOSE_BRACKET: Expected comma as object items separator, or close square bracket (22)"
strerror exp_comma_or_close_curly =
    "EMBEDJSON_EXP_COMMA_OR_CLOSE_CURLY: Expected comma as object items separator, or close curly bracket (23)"
strerror exp_array_value =
    "EMBEDJSON_EXP_ARRAY_VALUE: Expected object, array, or primitive value as the value of json array (24)"
strerror excessive_input =
    "EMBEDJSON_EXCESSIVE_INPUT: Expected end-of-stream since JSON parsing is complete (25)"
strerror insufficient_input =
    "EMBEDJSON_INSUFFICIENT_INPUT: Not enough data to complete JSON parsing (26)"
strerror unexp_symbol =
    "EMBEDJSON_UNEXP_SYMBOL: Expected object, array, or primitive value, got unexpected symbol (27)"
strerror leading_zero = "EMBEDJSON_LEADING_ZERO: Got number starting with a leading zero (28)"
strerror leading_plus = "EMBEDJSON_LEADING_PLUS: Got number starting with a leading plus (29)"
strerror empty_frac = "EMBEDJSON_EMPTY_FRAC: Got empty fractional part of the number (30)"
strerror empty_exp = "EMBEDJSON_EMPTY_EXP: Got empty exponential part of the number (31)"
strerror bad_escape =
    "EMBEDJSON_BAD_ESCAPE: Got unexpected symbol while parsing escape sequence (32)"
strerror unescaped_control_char =
    "EMBEDJSON_UNESCAPED_CONTROL_CHAR: Got unescaped ASCII control character (33)"
strerror exponent_overflow =
    "EMBEDJSON_EXPONENT_OVERFLOW: Too large exponent part of the floating-point number (34)"
strerror int_overflow = "EMBEDJSON_INT_OVERFLOW: Too large integer value (35)"
strerror internal_error =
    "EMBEDJSON_INTERNAL_ERROR: Unexpected internal error (36). Please report a bug at https://github.com/ivochkin/embedjson/issues/new"
