-- ===== src/Lexer/Step/Number/Overflow.antt =====
-- The test for overflow of `int_value` in `case LEXER_STATE_IN_NUMBER` of lexer.c, and the sum behind it.
use embedjson.Base.{
  leb, if◌then◌else◌, ℕ, zero, suc, ◌+◌, ◌-◌, ◌*◌, ◌/◌, ◌^◌, ◌≤◌, ◌<◌, ◌≡◌, ◌≢◌, true, false, arith,
}
use embedjson.Common.{int_overflow, at}
use embedjson.Config.{Config, int_max}
use embedjson.Lexer.Step.Number.{number_digit, number, overflows}
use embedjson.Lexer.Step.{Loop, next, crash, give_up, is_digit, with_lexer}
use embedjson.Lexer.{Sink}

power_large : (k : ℕ) → 2 ^ 30 ≤ 2 ^ (k + 30)
power_large zero = omega arith
power_large (suc k) =
    let next_power : suc k + 30 ≡ suc (k + 30) = omega arith in
    rw next_power (omega (arith, power_large k))

pub int_max_large : (cfg : Config) → 32 ≤ cfg.int_bits → 2 ^ 31 - 1 ≤ int_max cfg
unfolding int_max
int_max_large cfg h =
    let same : cfg.int_bits - 2 ≡ cfg.int_bits - 32 + 30 = omega arith in
    rw same (omega (arith, power_large (cfg.int_bits - 32)))

-- Where the sum is at most a tenth of EMBEDJSON_INT_MAX it is computed without overflow.
pub overflows_small :
    (cfg : Config) (n c : ℕ)
    → is_digit c ≡ true
    → 10 * n + (c - b'0') ≤ int_max cfg / 10
    → overflows cfg n c ≡ false
unfolding overflows
overflows_small cfg n c d h = ground (arith, int_max_large cfg)

module _ {S D : Type 0} (cfg : Config) (sink : Sink S D) (i c : ℕ) (v : Loop) (s : S) where
  -- Without big numbers, and with a signed `embedjson_int_t` of 32 bits or more, a digit behind a
  -- value other than 0 has one of three outcomes. Where the value and the digit add up to more than a
  -- tenth of EMBEDJSON_INT_MAX, EMBEDJSON_INT_OVERFLOW is reported. If not, and ten times the value
  -- plus the character of the digit is at most EMBEDJSON_INT_MAX, the new value is ten times the old
  -- one plus the digit. If that sum is more, the behaviour is undefined, though the new value itself
  -- would fit; this needs a digit of at most 5 and a sum of value and digit that is less than 5 below
  -- a tenth of EMBEDJSON_INT_MAX.
  pub number_digit-exact :
      is_digit c ≡ true
      → cfg.bignum ≡ false
      → cfg.int_signed ≡ true
      → 32 ≤ cfg.int_bits
      → v.lex.int_value ≢ 0
      → (number cfg sink i c v s ≡ (
          if leb (v.lex.int_value + (c - b'0')) (int_max cfg / 10)
          then if leb (10 * v.lex.int_value + c) (int_max cfg)
            then next
                (with_lexer v (record v.lex { int_value = 10 * v.lex.int_value + (c - b'0') }))
                s
            else crash
          else give_up (sink.error_ex int_overflow (at i) s)))
        × (v.lex.int_value + (c - b'0') ≤ int_max cfg / 10
            → (10 * v.lex.int_value + (c - b'0') ≤ int_max cfg)
              × (int_max cfg < 10 * v.lex.int_value + c
                  → (c ≤ b'5') × (int_max cfg / 10 < v.lex.int_value + (c - b'0') + 5)))
  unfolding number number_digit overflows
  number_digit-exact d nb signed wide nz =
      let large = int_max_large cfg wide in
      (ground arith, λ fits. (omega arith, λ over. (ground arith, ground arith)))
