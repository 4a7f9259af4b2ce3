-- ===== src/Client.antt =====
-- The functions that the user of the library supplies (parser.h), over the user's own state `U`.
-- They are the interface between parser.c and its user. None of them is library code.
use embedjson.Base.{ℕ, Bool, List}
use embedjson.Base.Ints.{ℤ}
use embedjson.Common.{ErrorCode, Position}

-- One constructor for each callback with its arguments; `D` stands for `double`.
pub data Event (D : Type 0) : Type 0 where
  null : Event D
  bool : Bool → Event D
  int : ℤ → Event D
  double : D → Event D
  string_begin : Event D
  string_chunk : List ℕ → Event D
  string_end object_begin object_end array_begin array_end : Event D
  bignum_begin : ℤ → Event D
  bignum_chunk : List ℕ → Event D
  bignum_end : Event D

-- `event` calls the callback that the event names. `error_ex` is `embedjson_error_ex`, for which
-- common.c has one definition. `stack_overflow` is given the stack, its size and its capacity, and
-- hands back the new stack and capacity.
pub record Client (U D : Type 0) : Type 0 where
  pub event : Event D → U → ℕ × U
  pub error_ex : ErrorCode → Position → U → ℕ × U
  pub stack_overflow : List ℕ → ℕ → ℕ → U → ℕ × List ℕ × ℕ × U
