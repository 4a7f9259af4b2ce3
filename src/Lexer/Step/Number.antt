-- ===== src/Lexer/Step/Number.antt =====
-- The `case`s of the states inside a number.
pub mod Overflow
pub mod Decimal
pub mod Unfinished
pub mod Integer
pub mod Numeral
pub mod Refused
use embedjson.Base.{
  ℕ, ◌+◌, ◌-◌, ◌*◌, ◌/◌, ◌%◌, ◌^◌, Bool, true, false, not, List, Option, none, some, ◌&&◌, ◌||◌,
  ltb, leb, ◌==◌, if◌then◌else◌,
}
use embedjson.Base.Ints.{ℤ, pos, negated}
use embedjson.Common.{
  eof_in_string, leading_zero, int_overflow, empty_frac, bad_exponent, exponent_overflow, empty_exp,
  at, position_before,
}
use embedjson.Config.{Config, int_max, ull_mod, ushort_mod}
use embedjson.Lexer.Double.{Doubles, fraction, scale, signed}
use embedjson.Lexer.{
  Lexer, in_number, in_number_frac, in_number_exp_sign, in_number_exp, in_big_number, lookup_token,
  Sink,
}
use embedjson.Lexer.Step.{
  Loop, Turn, next, back, crash, ◌>>=◌, give_up, is_digit, with_lexer, enter, flush_bignum,
}

-- `'e'` or `'E'`
abbrev pub is_exp_mark : ℕ → Bool
is_exp_mark c = c == b'e' || c == b'E'

-- `0 - n` in `embedjson_int_t`, which wraps around if it is unsigned.
abbrev pub opposite : Config → ℕ → ℤ
opposite cfg n =
    if cfg.int_signed
    then negated n
    else pos ((2 ^ cfg.int_bits - n % 2 ^ cfg.int_bits) % 2 ^ cfg.int_bits)

-- The integer handed on: `int_value`, after `0 - int_value` where there was a minus.
abbrev pub signed_int : Config → Lexer → ℤ
signed_int cfg lex = if lex.minus then opposite cfg lex.int_value else pos lex.int_value

-- What the lexer clears when it has handed a number on.
abbrev pub cleared_int : Lexer → Lexer
cleared_int lex = record lex { int_value = 0; minus = false; state = lookup_token }

abbrev pub cleared_frac : Lexer → Lexer
cleared_frac lex = record lex {
  int_value = 0;
  frac_power = 0;
  frac_value = 0;
  minus = false;
  state = lookup_token;
}

abbrev pub cleared_exp : Lexer → Lexer
cleared_exp lex = record lex {
  int_value = 0;
  frac_power = 0;
  frac_value = 0;
  minus = false;
  exp_value = 0;
  exp_minus = false;
  exp_not_empty = false;
  state = lookup_token;
}

-- Whether `10 * lex.int_value + *data` overflows, which is undefined where `embedjson_int_t` is
-- signed. A type of fewer than 32 bits is promoted to `int`, in which the sum fits.
unfoldable pub overflows : Config → ℕ → ℕ → Bool
overflows cfg n c = cfg.int_signed && leb 32 cfg.int_bits && ltb (int_max cfg) (10 * n + c)

module _ {S D : Type 0} (sink : Sink S D) (i c : ℕ) (v : Loop) (s : S) where
  -- The error here is the one of an unfinished string. `int_value` is 0 behind the sign.
  unfoldable pub number_sign : Turn S
  number_sign =
      if is_digit c
      then next
          (with_lexer v
            (record v.lex { int_value = 10 * v.lex.int_value + c - b'0'; state = in_number }))
          s
      else give_up (sink.error_ex eof_in_string (at i) s)

  unfoldable pub number_exp_sign : Turn S
  number_exp_sign =
      if c == b'-'
      then next (enter (with_lexer v (record v.lex { exp_minus = true })) in_number_exp) s
      else if is_digit c
      then next
          (with_lexer v
            (record v.lex { exp_value = c - b'0'; exp_not_empty = true; state = in_number_exp }))
          s
      else if not (c == b'+')
      then give_up (sink.error_ex bad_exponent (at i) s)
      else next (enter v in_number_exp) s

module _ {S D : Type 0} (cfg : Config) (sink : Sink S D) (i c : ℕ) (v : Loop) (s : S) where
  -- `EMBEDJSON_INT_MAX / 10 - *data + '0'` is written so that nothing is cut off at 0.
  unfoldable pub number_digit : Turn S
  number_digit =
      if v.lex.int_value == 0
      then give_up (sink.error_ex leading_zero (at i) s)
      else if ltb (int_max cfg / 10 + b'0' - c) v.lex.int_value
      then if cfg.bignum
        then (do
          s' ← sink.tokenbn_begin (at i) (pos v.lex.int_value) s
          next (record { lex = record v.lex { state = in_big_number }; chunk = some (i + 1) }) s')
        else give_up (sink.error_ex int_overflow (at i) s)
      else if overflows cfg v.lex.int_value c
      then crash
      else next (with_lexer v (record v.lex { int_value = 10 * v.lex.int_value + c - b'0' })) s

  unfoldable pub number : Turn S
  number =
      if is_digit c
      then number_digit
      else if c == b'.'
      then next (enter v in_number_frac) s
      else if is_exp_mark c
      then next (enter v in_number_exp_sign) s
      else do
        s' ← sink.tokeni (signed_int cfg v.lex) (position_before i) s
        back (with_lexer v (cleared_int v.lex)) s'

module _ {S D : Type 0} (fl : Doubles D) (sink : Sink S D) (i c : ℕ) (v : Loop) (s : S) where
  -- Handing on a floating-point value; `none` is a read outside the table of `powm10`.
  unfoldable pub hand_over : Option D → Lexer → Turn S
  hand_over none after = crash
  hand_over (some value) after = do
    s' ← sink.tokenf (signed fl v.lex value) (position_before i) s
    back (with_lexer v after) s'

  unfoldable pub number_frac : Turn S
  number_frac =
      if is_digit c
      then next
          (with_lexer v (record v.lex {
            frac_value = (10 * v.lex.frac_value + c - b'0') % ull_mod;
            frac_power = (v.lex.frac_power + 1) % ushort_mod;
          }))
          s
      else if v.lex.frac_power == 0
      then give_up (sink.error_ex empty_frac (at i) s)
      else if is_exp_mark c
      then next (enter v in_number_exp_sign) s
      else hand_over (fraction fl v.lex) (cleared_frac v.lex)

  -- The value with its exponent.
  unfoldable pub exponential : Option D
  exponential = elim (fraction fl v.lex) [ none ↦ none | some value ↦ scale fl v.lex value ]

  unfoldable pub number_exp : Turn S
  number_exp =
      let e = (10 * v.lex.exp_value + c - b'0') % ushort_mod in
      if is_digit c
      then if (v.lex.exp_minus && ltb 323 e) || (not v.lex.exp_minus && ltb 308 e)
        then give_up (sink.error_ex exponent_overflow (at i) s)
        else next (with_lexer v (record v.lex { exp_value = e; exp_not_empty = true })) s
      else if not v.lex.exp_not_empty
      then give_up (sink.error_ex empty_exp (at i) s)
      else hand_over exponential (cleared_exp v.lex)

module _ {S D : Type 0} (sink : Sink S D) (buf : List ℕ) (i c : ℕ) (v : Loop) (s : S) where
  unfoldable pub big_number : Turn S
  big_number = if is_digit c || is_exp_mark c || c == b'-' || c == b'.' then next v s else do
    s' ← flush_bignum sink buf v.chunk i s
    (do s'' ← sink.tokenbn_end (position_before i) s'; back (with_lexer v (cleared_exp v.lex)) s'')
