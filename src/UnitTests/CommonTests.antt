-- ===== src/UnitTests/CommonTests.antt =====
-- ut_common.c: the test of `embedjson_strerror`, and that it passes.
use Prim.Native.String.{String}
use embedjson.Base.Bytes.{same_bytes}
use embedjson.Base.{
  ℕ, ◌≡◌, refl, sym, ap, ◌∙◌, Bool, true, false, not, ◌&&◌, List, [], ◌∷◌, get_or, take, some,
}
use embedjson.Common.Messages.Numbers.{bytes_of, number_in, strerror-number}
use embedjson.Common.Messages.{strerror, value_of}
use embedjson.Common.{
  ErrorCode, no_error, bad_utf8, long_utf8, bad_unicode_escape, bad_exponent, bad_true, bad_false,
  bad_null, eof_in_string, eof_in_exponent, eof_in_true, eof_in_false, eof_in_null, stack_overflow,
  unexp_close_curly, unexp_close_bracket, unexp_comma, unexp_colon, exp_colon,
  exp_object_key_or_close_curly, exp_object_key, exp_object_value, exp_comma_or_close_bracket,
  exp_comma_or_close_curly, exp_array_value, excessive_input, insufficient_input, unexp_symbol,
  leading_zero, leading_plus, empty_frac, empty_exp, bad_escape, unescaped_control_char,
  exponent_overflow, int_overflow, internal_error,
}

-- The codes from EMBEDJSON_OK to EMBEDJSON_INTERNAL_ERROR, in the order of their values.
abbrev pub codes : List ErrorCode
codes =
    no_error ∷ bad_utf8 ∷ long_utf8 ∷ bad_unicode_escape ∷ bad_exponent ∷ bad_true ∷ bad_false
    ∷ bad_null ∷ eof_in_string ∷ eof_in_exponent ∷ eof_in_true ∷ eof_in_false ∷ eof_in_null
    ∷ stack_overflow ∷ unexp_close_curly ∷ unexp_close_bracket ∷ unexp_comma ∷ unexp_colon
    ∷ exp_colon ∷ exp_object_key_or_close_curly ∷ exp_object_key ∷ exp_object_value
    ∷ exp_comma_or_close_bracket ∷ exp_comma_or_close_curly ∷ exp_array_value ∷ excessive_input
    ∷ insufficient_input ∷ unexp_symbol ∷ leading_zero ∷ leading_plus ∷ empty_frac ∷ empty_exp
    ∷ bad_escape ∷ unescaped_control_char ∷ exponent_overflow ∷ int_overflow ∷ internal_error ∷ []

-- `!strncmp(message, "Unknown error", 13)`
abbrev pub is_default : String → Bool
is_default message = same_bytes (take 13 (bytes_of message)) (bytes_of "Unknown error")

-- `!messages[i][0]`
abbrev pub is_empty : List ℕ → Bool
is_empty [] = true
is_empty _ = false

-- The first loop of `test_strerror`.
unfoldable pub messages_covered : List ErrorCode → Bool
messages_covered [] = true
messages_covered (code ∷ more) =
    not (is_empty (bytes_of (strerror code)))
    && (not (is_default (strerror code)) && messages_covered more)

-- A message that differs from those behind it.
unfoldable pub message_differs : ErrorCode → List ErrorCode → Bool
message_differs code [] = true
message_differs code (other ∷ more) =
    not (same_bytes (bytes_of (strerror code)) (bytes_of (strerror other)))
    && message_differs code more

-- The second loop.
unfoldable pub messages_different : List ErrorCode → Bool
messages_different [] = true
messages_different (code ∷ more) = message_differs code more && messages_different more

-- `test_strerror`
unfoldable pub test_strerror : Bool
test_strerror = messages_covered codes && messages_different codes

code_at : (e : ErrorCode) → get_or codes (value_of e) no_error ≡ e
code_at no_error = refl
code_at bad_utf8 = refl
code_at long_utf8 = refl
code_at bad_unicode_escape = refl
code_at bad_exponent = refl
code_at bad_true = refl
code_at bad_false = refl
code_at bad_null = refl
code_at eof_in_string = refl
code_at eof_in_exponent = refl
code_at eof_in_true = refl
code_at eof_in_false = refl
code_at eof_in_null = refl
code_at stack_overflow = refl
code_at unexp_close_curly = refl
code_at unexp_close_bracket = refl
code_at unexp_comma = refl
code_at unexp_colon = refl
code_at exp_colon = refl
code_at exp_object_key_or_close_curly = refl
code_at exp_object_key = refl
code_at exp_object_value = refl
code_at exp_comma_or_close_bracket = refl
code_at exp_comma_or_close_curly = refl
code_at exp_array_value = refl
code_at excessive_input = refl
code_at insufficient_input = refl
code_at unexp_symbol = refl
code_at leading_zero = refl
code_at leading_plus = refl
code_at empty_frac = refl
code_at empty_exp = refl
code_at bad_escape = refl
code_at unescaped_control_char = refl
code_at exponent_overflow = refl
code_at int_overflow = refl
code_at internal_error = refl

value_of_injective : (a b : ErrorCode) → value_of a ≡ value_of b → a ≡ b
value_of_injective a b e = sym (code_at a) ∙ ap (λ n. get_or codes n no_error) e ∙ code_at b

value_of_some : {m n : ℕ} → some m ≡ some n → m ≡ n
value_of_some e = cc

-- `embedjson_strerror` gives different messages for different error codes, so that a message names its
-- code, and `test_strerror` of ut_common.c passes.
pub strerror_injective :
    ((a b : ErrorCode) → strerror a ≡ strerror b → a ≡ b) × (test_strerror ≡ true)
unfolding test_strerror messages_covered messages_different message_differs strerror same_bytes
strerror_injective = (
  λ a b e.
      value_of_injective a b
        (value_of_some (sym (strerror-number a) ∙ ap number_in e ∙ strerror-number b)),
  refl,
)
