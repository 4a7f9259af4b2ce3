-- ===== src/Lexer/Double.antt =====
-- The floating-point side of lexer.c over abstract doubles: `powm10` and the value of a number.
pub mod Table
use embedjson.Base.{ℕ, ◌+◌, ◌-◌, ltb, Option, none, some, if◌then◌else◌}
use embedjson.Base.Ints.{ℤ, pos, negsuc, sub_ℕ, negated}
use embedjson.Lexer.{Lexer}

-- `double` and what the lexer does with it: the conversions of `embedjson_int_t` and of
-- `unsigned long long`, the literal `1e<k>`, and the operators.
pub record Doubles (D : Type 0) : Type 0 where
  pub of_int : ℤ → D
  pub of_ull : ℕ → D
  pub literal : ℤ → D
  pub add : D → D → D
  pub sub : D → D → D
  pub mul : D → D → D

-- The number of elements of the table `e` of `powm10`; element `i` is the literal `1e<308 - i>`.
abbrev pub table_size : ℕ
table_size = 632

-- `n + 308`; `none` is a negative index.
abbrev pub table_index : ℤ → Option ℕ
table_index (pos n) = some (n + 308)
table_index (negsuc n) = if ltb n 308 then some (308 - (n + 1)) else none

module _ {D : Type 0} (fl : Doubles D) where
  unfoldable pub table_entry : ℕ → Option D
  table_entry i = if ltb i table_size then some (fl.literal (sub_ℕ 308 i)) else none

  -- `none` is a read outside the table.
  unfoldable pub powm10 : ℤ → Option D
  powm10 n = elim (table_index n) [ none ↦ none | some i ↦ table_entry i ]

  -- `lex.int_value + lex.frac_value * powm10(lex.frac_power)`
  unfoldable pub fraction : Lexer → Option D
  fraction lex = elim (powm10 (pos lex.frac_power)) [
    | none ↦ none
    | some e ↦ some (fl.add (fl.of_int (pos lex.int_value)) (fl.mul (fl.of_ull lex.frac_value) e))
  ]

  -- The same sum in `embedjson_lexer_finalize`, which is written the other way round.
  unfoldable pub final_fraction : Lexer → Option D
  final_fraction lex = elim (powm10 (pos lex.frac_power)) [
    | none ↦ none
    | some e ↦ some (fl.add (fl.mul (fl.of_ull lex.frac_value) e) (fl.of_int (pos lex.int_value)))
  ]

  -- `value *= powm10(lex.exp_minus ? lex.exp_value : 0 - lex.exp_value)`
  unfoldable pub scale : Lexer → D → Option D
  scale lex value =
      elim (powm10 (if lex.exp_minus then pos lex.exp_value else negated lex.exp_value)) [
        | none ↦ none
        | some e ↦ some (fl.mul value e)
      ]

  -- `if (lex.minus) { value = 0 - value; }`
  unfoldable pub signed : Lexer → D → D
  signed lex value = if lex.minus then fl.sub (fl.of_int (pos 0)) value else value
