-- ===== src/Lexer/Double/Table.antt =====
-- Where the index into the table of `powm10` of lexer.c stays within it.
use embedjson.Base.{
  if-eq, leb, ℕ, zero, suc, ◌+◌, ◌-◌, ◌≤◌, ◌<◌, ◌≡◌, refl, none, some, if◌then◌else◌, arith,
}
use embedjson.Base.Ints.{pos, sub_ℕ, negated}
use embedjson.Lexer.Double.{Doubles, powm10, table_entry}

exponent_down : (n : ℕ) → sub_ℕ 308 (n + 308) ≡ negated n
exponent_down zero = refl
exponent_down (suc n) = ground arith

exponent_up : (n : ℕ) → n < 308 → sub_ℕ 308 (308 - (n + 1)) ≡ pos (suc n)
exponent_up n h = ground arith

module _ {D : Type 0} (fl : Doubles D) where
  entry : (i : ℕ) → i < 632 → table_entry fl i ≡ some (fl.literal (sub_ℕ 308 i))
  unfolding table_entry
  entry i h = ground arith

  entry_up : (n : ℕ) → n ≤ 308 → powm10 fl (negated n) ≡ some (fl.literal (pos n))
  unfolding powm10
  entry_up zero h = entry 308 (omega arith)
  entry_up (suc n) h = ground (arith, entry (308 - (n + 1)) (omega arith), exponent_up n h)

  -- `powm10(n)` is the literal `1e<-n>` for each n from -308 to 323, and reads outside its table for
  -- each n below or above.
  pub powm10_lem :
      (n : ℕ)
      → (powm10 fl (pos n) ≡ (if leb n 323 then some (fl.literal (negated n)) else none))
        × (powm10 fl (negated n) ≡ (if leb n 308 then some (fl.literal (pos n)) else none))
  unfolding powm10 table_entry
  powm10_lem zero = (refl, refl)
  powm10_lem (suc n) = (
    ground (arith, exponent_down (suc n)),
    if-eq (leb (suc n) 308) _ (λ h. entry_up (suc n) (ground arith)) (λ h. ground arith),
  )
