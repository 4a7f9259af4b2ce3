-- ===== src/Common.antt =====
-- common.h and common.c: error codes, how the library reports one, and what a C function that
-- returns a status hands back.
pub mod Messages
use embedjson.Base.{ℕ, zero, suc}

-- `embedjson_error_code`
pub data ErrorCode : Type 0 where
  no_error bad_utf8 long_utf8 bad_unicode_escape bad_exponent bad_true bad_false : ErrorCode
  bad_null eof_in_string eof_in_exponent eof_in_true eof_in_false eof_in_null : ErrorCode
  stack_overflow unexp_close_curly unexp_close_bracket unexp_comma unexp_colon : ErrorCode
  exp_colon exp_object_key_or_close_curly exp_object_key exp_object_value : ErrorCode
  exp_comma_or_close_bracket exp_comma_or_close_curly exp_array_value : ErrorCode
  excessive_input insufficient_input unexp_symbol leading_zero leading_plus : ErrorCode
  empty_frac empty_exp bad_escape unescaped_control_char exponent_overflow : ErrorCode
  int_overflow internal_error : ErrorCode

-- A `const char* position`: 0, or a place relative to the buffer of the call of
-- `embedjson_lexer_push`. `data--` on its first byte points before the buffer, and
-- the bytes of an escape sequence stand elsewhere.
pub data Position : Type 0 where
  null_position before_buffer elsewhere : Position
  at : ℕ → Position

-- `data - 1` and then `data`, for the byte of index `i`
abbrev pub position_before : ℕ → Position
position_before zero = before_buffer
position_before (suc i) = at i

-- What a function that returns an `int` leaves: the status, as the bit pattern of the `int`, and
-- the state; or `fault` where C leaves the behaviour undefined, as at an access out of bounds.
pub data Outcome {ℓ} (A : Type ℓ) : Type ℓ where
  ret : ℕ → A → Outcome A
  fault : Outcome A

-- `RETURN_IF` and `EMBEDJSON_RETURN_IF`: go on only if the status is 0.
infixl 5 ◌>>=◌
abbrev pub ◌>>=◌ {ℓ} : {A : Type ℓ} → Outcome A → (A → Outcome A) → Outcome A
ret zero a >>= f = f a
ret (suc e) a >>= f = ret (suc e) a
fault >>= f = fault

-- `embedjson_error_ex` of common.c hands the position on and drops the code. `error` is the
-- user's `embedjson_error`, over the user's state.
unfoldable pub error_ex : {U : Type 0} → (Position → U → ℕ × U) → ErrorCode → Position → U → ℕ × U
error_ex error code position = error position
