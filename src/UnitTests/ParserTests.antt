-- ===== src/UnitTests/ParserTests.antt =====
-- The harness of ut_parser.c: the callbacks, which compare each call with a table.
pub mod First
pub mod Second
pub mod Run
pub mod Compare
use Prim.Native.String.{String}
use embedjson.Base.{
  ℕ, ◌*◌, ◌+◌, ◌%◌, ◌%◌, ◌==◌, Bool, true, false, List, [], ◌∷◌, Option, none, some, take, drop,
  if◌then◌else◌,
}
use embedjson.Client.{
  Event, null, bool, int, double, string_begin, string_chunk, string_end, object_begin, object_end,
  array_begin, array_end, bignum_begin, bignum_chunk, bignum_end, Client,
}
use embedjson.Common.{Position, error_ex}
use embedjson.Lint.{lint_overflow, minus_one}
use embedjson.Config.{size_mod}

-- `call_type`
pub data CallType : Type 0 where
  call_null call_bool call_int call_double call_string_begin call_string_chunk : CallType
  call_string_end call_begin_object call_end_object call_begin_array call_end_array : CallType
  call_bignum_begin call_bignum_chunk call_bignum_end call_error : CallType

-- `test_case`; a chunk is its bytes.
pub record TestCase : Type 0 where
  pub name : String
  pub data_chunks : List (List ℕ)
  pub calls : List CallType

-- `{.data = json + begin, .size = size}`
abbrev pub chunk : List ℕ → ℕ → ℕ → List ℕ
chunk json begin size = take size (drop begin json)

-- MAGIC, as the bit pattern of the `int`
abbrev pub magic : ℕ
magic = 0xDEADBEEF

-- The number of a call, in the order of the enumeration.
abbrev pub call_number : CallType → ℕ
call_number call_null = 0
call_number call_bool = 1
call_number call_int = 2
call_number call_double = 3
call_number call_string_begin = 4
call_number call_string_chunk = 5
call_number call_string_end = 6
call_number call_begin_object = 7
call_number call_end_object = 8
call_number call_begin_array = 9
call_number call_end_array = 10
call_number call_bignum_begin = 11
call_number call_bignum_chunk = 12
call_number call_bignum_end = 13
call_number call_error = 14

-- What `icall` points at: the calls that are still expected. `exited` is set by `exit(1)` in `fail`.
pub record Progress : Type 0 where
  pub expected : List CallType
  pub exited : Bool

-- `exit(1)`. The status stands for the end of the program: the library hands it back at once.
abbrev pub exit : Progress → ℕ × Progress
exit u = (1, record u { exited = true })

-- `call == CALL_ERROR ? MAGIC : 0`
abbrev pub answer : CallType → ℕ
answer call_error = magic
answer _ = 0

-- `on_call`, by what `icall` points at.
unfoldable pub compared : CallType → Progress → List CallType → ℕ × Progress
compared call u [] = exit u
compared call u (icall ∷ more) =
    if call_number call == call_number icall
    then (answer call, record u { expected = more })
    else exit u

abbrev pub on_call : CallType → Progress → ℕ × Progress
on_call call u = compared call u u.expected

-- The callbacks of values.
abbrev pub call_of : {D : Type 0} → Event D → CallType
call_of null = call_null
call_of (bool value) = call_bool
call_of (int value) = call_int
call_of (double value) = call_double
call_of string_begin = call_string_begin
call_of (string_chunk chunk) = call_string_chunk
call_of string_end = call_string_end
call_of object_begin = call_begin_object
call_of object_end = call_end_object
call_of array_begin = call_begin_array
call_of array_end = call_end_array
call_of (bignum_begin value) = call_bignum_begin
call_of (bignum_chunk chunk) = call_bignum_chunk
call_of bignum_end = call_bignum_end

-- `embedjson_error`
abbrev pub test_error : Position → Progress → ℕ × Progress
test_error position u = on_call call_error u

-- `embedjson_stack_overflow`, over the C library's `realloc`
unfoldable pub test_overflow :
    (List ℕ → ℕ → Option (List ℕ)) → List ℕ → ℕ → ℕ → Progress → ℕ × List ℕ × ℕ × Progress
test_overflow realloc stack size capacity u = elim (realloc stack ((2 * capacity + 1) % size_mod)) [
  | none ↦ (minus_one, stack, capacity, u)
  | some new_stack ↦ (0, new_stack, (2 * capacity + 1) % size_mod, u)
]

abbrev pub test_client : {D : Type 0} → (List ℕ → ℕ → Option (List ℕ)) → Client Progress D
test_client realloc = record {
  event = λ e u. on_call (call_of e) u;
  error_ex = λ code position u. error_ex test_error code position u;
  stack_overflow = test_overflow realloc;
}
