-- ===== src/Parser/Stack.antt =====
-- The stack of open brackets of parser.c, one bit each.
pub mod Bits
pub mod Refine
pub mod Laws
pub mod Push
use embedjson.Base.{
  ℕ, ◌+◌, ◌-◌, ◌*◌, ◌/◌, ◌%◌, bit_and, bit_or, Bool, List, [], ◌∷◌, Option, none, some, get_elem?,
  get_or, set, ◌==◌, if◌then◌else◌,
}
use embedjson.Client.{Client}
use embedjson.Common.{Outcome, ret, fault, stack_overflow, null_position, ◌>>=◌}
use embedjson.Config.{Config, size_mod}
use embedjson.Parser.{Parser, Bracket, curly, square, error}

abbrev pub embedjson_zero : List ℕ
embedjson_zero = 0xFE ∷ 0xFD ∷ 0xFB ∷ 0xF7 ∷ 0xEF ∷ 0xDF ∷ 0xBF ∷ 0x7F ∷ []

abbrev pub embedjson_one : List ℕ
embedjson_one = 0x01 ∷ 0x02 ∷ 0x04 ∷ 0x08 ∷ 0x10 ∷ 0x20 ∷ 0x40 ∷ 0x80 ∷ []

-- The byte with bit `nbit` written for a bracket.
unfoldable pub write_bit : Bracket → ℕ → ℕ → ℕ
write_bit square b nbit = bit_or b (get_or embedjson_one nbit 0)
write_bit curly b nbit = bit_and b (get_or embedjson_zero nbit 0)

-- `!!(b & embedjson_one[nbit])`
unfoldable pub read_bit : ℕ → ℕ → Bracket
read_bit b nbit = if bit_and b (get_or embedjson_one nbit 0) == 0 then curly else square

-- Bit `top` of the stack; `none` is a read out of bounds.
abbrev pub bracket_read : List ℕ → ℕ → Option Bracket
bracket_read stack top = elim (get_elem? stack (top / 8)) [
  | none ↦ none
  | some b ↦ some (read_bit b (top % 8))
]

module _ {U : Type 0} where
  unfoldable pub stack_empty : Parser U → Bool
  stack_empty p = p.stack_size == 0

  -- `stack_size--`, which wraps
  unfoldable pub stack_pop : Parser U → Parser U
  stack_pop p = record p { stack_size = (p.stack_size + size_mod - 1) % size_mod }

  unfoldable pub stack_top : Parser U → Option Bracket
  stack_top p = bracket_read p.stack ((p.stack_size + size_mod - 1) % size_mod)

  -- The end of `stack_push`, behind its test for room.
  unfoldable pub stack_write : Bracket → Parser U → Outcome (Parser U)
  stack_write value p = elim (get_elem? p.stack (p.stack_size / 8)) [
    | none ↦ fault
    | some b ↦ ret 0 (record p {
      stack = set p.stack (p.stack_size / 8) (write_bit value b (p.stack_size % 8));
      stack_size = (p.stack_size + 1) % size_mod;
    })
  ]

module _ {U : Type 0} (cfg : Config) where
  -- EMBEDJSON_STACK_CAPACITY
  abbrev pub capacity : Parser U → ℕ
  capacity p = if cfg.dynamic_stack then p.stack_capacity else cfg.static_stack_size

  -- `max_size` is an `unsigned char`.
  unfoldable pub stack_full : Parser U → Bool
  stack_full p = p.stack_size == (8 * 1 * capacity p) % 256

module _ {U D : Type 0} (cfg : Config) (client : Client U D) where
  -- `embedjson_stack_overflow`, which replaces the stack
  abbrev pub grow : Parser U → Outcome (Parser U)
  grow p =
      let (code, stack, cap, u) =
        client.stack_overflow p.stack p.stack_size p.stack_capacity p.user in
      ret code (record p { stack = stack; stack_capacity = cap; user = u })

  unfoldable pub stack_push : Bracket → Parser U → Outcome (Parser U)
  stack_push value p =
      if stack_full cfg p
      then if cfg.dynamic_stack
        then grow p >>= stack_write value
        else error client stack_overflow null_position p
      else stack_write value p
