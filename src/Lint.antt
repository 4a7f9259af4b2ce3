-- ===== src/Lint.antt =====
-- embedjson_lint.c: the callbacks of the command-line tool and its state.
pub mod Main
pub mod Exit
pub mod Growth
pub mod Misread
use Prim.Native.String.{String}
use embedjson.Base.{
  ℕ, suc, ◌+◌, ◌*◌, ◌-◌, ◌%◌, ◌^◌, Bool, true, false, List, [], ◌∷◌, Option, none, some,
  if◌then◌else◌,
}
use embedjson.Base.Ints.{ℤ}
use embedjson.Client.{
  Event, null, bool, int, double, string_begin, string_chunk, string_end, object_begin, object_end,
  array_begin, array_end, bignum_begin, bignum_chunk, bignum_end, Client,
}
use embedjson.Common.{ErrorCode, no_error, internal_error, Position, null_position, error_ex}
use embedjson.Config.{size_mod}

-- A call of `printf`: its format and its argument, if it has one.
pub data Printed (D : Type 0) : Type 0 where
  text : String → Printed D
  with_int : String → ℤ → Printed D
  with_double : String → D → Printed D
  with_bytes : String → List ℕ → Printed D

-- What is printed to stderr: a symbol and a message.
pub record Complaint : Type 0 where
  pub symbol : ℕ
  pub message : String

-- The variables of the program, and what it has printed, the last line first.
pub record Lint (D : Type 0) : Type 0 where
  pub verbose : Bool
  pub input_file : Option (List ℕ)
  pub error_position : Position
  pub error_code : ErrorCode
  pub output : List (Printed D)
  pub complaints : List Complaint

abbrev pub initial_lint : {D : Type 0} → Lint D
initial_lint = record {
  verbose = false;
  input_file = none;
  error_position = null_position;
  error_code = no_error;
  output = [];
  complaints = [];
}

-- EMBEDJSON_PRINTF
unfoldable pub print : {D : Type 0} → Printed D → Lint D → Lint D
print line u = if u.verbose then record u { output = line ∷ u.output } else u

-- `embedjson_error`
abbrev pub lint_error : {D : Type 0} → Position → Lint D → ℕ × Lint D
lint_error position u = (1, record u { error_position = position; error_code = internal_error })

-- What each callback prints.
abbrev pub line_of : {D : Type 0} → Event D → Printed D
line_of null = text "null\n"
line_of (bool true) = text "bool true\n"
line_of (bool false) = text "bool false\n"
line_of (int value) = with_int "int %lld\n" value
line_of (double value) = with_double "double %lf\n" value
line_of string_begin = text "begin string\n"
line_of (string_chunk chunk) = with_bytes "string %.*s\n" chunk
line_of string_end = text "end string\n"
line_of object_begin = text "begin object\n"
line_of object_end = text "end object\n"
line_of array_begin = text "begin array\n"
line_of array_end = text "end array\n"
line_of (bignum_begin value) = with_int "begin big number, initial value %lld\n" value
line_of (bignum_chunk chunk) = with_bytes "bignum %.*s\n" chunk
line_of bignum_end = text "end bignum\n"

-- The callbacks of values.
unfoldable pub lint_event : {D : Type 0} → Event D → Lint D → ℕ × Lint D
lint_event e u = (0, print (line_of e) u)

-- `-1` as the bit pattern of an `int`.
abbrev pub minus_one : ℕ
minus_one = 2 ^ 32 - 1

-- Behind `realloc`: `none` is the null pointer.
unfoldable pub reallocated :
    {D : Type 0} → List ℕ → ℕ → ℕ → Lint D → Option (List ℕ) → ℕ × List ℕ × ℕ × Lint D
reallocated stack cap new_stack_capacity u none = (minus_one, stack, cap, u)
reallocated stack cap new_stack_capacity u (some new_stack) = (0, new_stack, new_stack_capacity, u)

-- `embedjson_stack_overflow`. `realloc` is the C library's: the block of the new size, if there is
-- memory.
unfoldable pub lint_overflow :
    {D : Type 0}
    → (List ℕ → ℕ → Option (List ℕ))
    → List ℕ
    → ℕ
    → ℕ
    → Lint D
    → ℕ × List ℕ × ℕ × Lint D
lint_overflow realloc stack size cap u =
    let new_stack_capacity = (2 * cap + 1) % size_mod in
    reallocated stack cap new_stack_capacity u (realloc stack new_stack_capacity)

-- The user's functions that the program supplies.
abbrev pub lint_client : {D : Type 0} → (List ℕ → ℕ → Option (List ℕ)) → Client (Lint D) D
lint_client realloc = record {
  event = lint_event;
  error_ex = λ code position u. error_ex lint_error code position u;
  stack_overflow = lint_overflow realloc;
}
