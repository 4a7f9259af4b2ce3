-- ===== src/Common/Messages/Numbers.antt =====
-- The numbers in the messages of `embedjson_strerror` of common.c.
use Prim.Native.Char.{code}
use Prim.Native.String.{String}
use embedjson.Base.{
  ℕ, ◌+◌, ◌-◌, ◌*◌, ◌≡◌, refl, List, [], ◌∷◌, Option, none, some, ◌==◌, leb, ◌&&◌, if◌then◌else◌,
}
use embedjson.Common.Messages.{value_of, strerror}
use embedjson.Common.{
  ErrorCode, no_error, bad_utf8, long_utf8, bad_unicode_escape, bad_exponent, bad_true, bad_false,
  bad_null, eof_in_string, eof_in_exponent, eof_in_true, eof_in_false, eof_in_null, stack_overflow,
  unexp_close_curly, unexp_close_bracket, unexp_comma, unexp_colon, exp_colon,
  exp_object_key_or_close_curly, exp_object_key, exp_object_value, exp_comma_or_close_bracket,
  exp_comma_or_close_curly, exp_array_value, excessive_input, insufficient_input, unexp_symbol,
  leading_zero, leading_plus, empty_frac, empty_exp, bad_escape, unescaped_control_char,
  exponent_overflow, int_overflow, internal_error,
}

-- The bytes of an ASCII text.
abbrev pub bytes_of : String → List ℕ
bytes_of (String.◌∷◌ letter more) = code letter ∷ bytes_of more
bytes_of String.[] = []

abbrev digit_read : Option ℕ → ℕ → Option ℕ
digit_read none c = none
digit_read (some n) c = if leb b'0' c && leb c b'9' then some (10 * n + (c - b'0')) else none

-- The number being read behind a byte, if one is.
abbrev number_behind : Option ℕ → ℕ → Option ℕ
number_behind open_number c =
    if c == b'(' then some 0 else if c == b')' then none else digit_read open_number c

-- The last number in parentheses; `open_number` is the one being read.
abbrev last_number : (last open_number : Option ℕ) → List ℕ → Option ℕ
last_number last open_number [] = last
last_number last open_number (c ∷ cs) =
    last_number (if c == b')' then open_number else last) (number_behind open_number c) cs

-- The number that a message gives.
unfoldable pub number_in : String → Option ℕ
number_in message = last_number none none (bytes_of message)

-- The message of `embedjson_strerror` for each error code gives the value of the code in
-- parentheses.
pub strerror-number : (e : ErrorCode) → number_in (strerror e) ≡ some (value_of e)
unfolding strerror number_in
strerror-number no_error = refl
strerror-number bad_utf8 = refl
strerror-number long_utf8 = refl
strerror-number bad_unicode_escape = refl
strerror-number bad_exponent = refl
strerror-number bad_true = refl
strerror-number bad_false = refl
strerror-number bad_null = refl
strerror-number eof_in_string = refl
strerror-number eof_in_exponent = refl
strerror-number eof_in_true = refl
strerror-number eof_in_false = refl
strerror-number eof_in_null = refl
strerror-number stack_overflow = refl
strerror-number unexp_close_curly = refl
strerror-number unexp_close_bracket = refl
strerror-number unexp_comma = refl
strerror-number unexp_colon = refl
strerror-number exp_colon = refl
strerror-number exp_object_key_or_close_curly = refl
strerror-number exp_object_key = refl
strerror-number exp_object_value = refl
strerror-number exp_comma_or_close_bracket = refl
strerror-number exp_comma_or_close_curly = refl
strerror-number exp_array_value = refl
strerror-number excessive_input = refl
strerror-number insufficient_input = refl
strerror-number unexp_symbol = refl
strerror-number leading_zero = refl
strerror-number leading_plus = refl
strerror-number empty_frac = refl
strerror-number empty_exp = refl
strerror-number bad_escape = refl
strerror-number unescaped_control_char = refl
strerror-number exponent_overflow = refl
strerror-number int_overflow = refl
strerror-number internal_error = refl
