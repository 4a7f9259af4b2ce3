-- ===== src/Parser/Stack/Refine.antt =====
-- The bit-packed stack of parser.c holds a list of brackets, the innermost one first.
use embedjson.Base.{
  ℕ, zero, suc, ◌*◌, ◌/◌, ◌%◌, ◌≤◌, ◌<◌, ◌≡◌, refl, ap, sym, ◌∙◌, List, [], ◌∷◌, Option, none, some,
  length, get_elem?, set, All, All-get_elem?, All-set, get_elem?-set_self, get_elem?-set_ne, arith,
}
use embedjson.Parser.Stack.Bits.{read_bit-write_bit_self, read_bit-write_bit_ne, write_bit-lt}
use embedjson.Parser.Stack.{write_bit, read_bit}
use embedjson.Parser.{Bracket, curly}
use mathlib.Core.Path.{ap₂}
use native.Mathlib.Decide.{ℕ_discrete}

abbrev pub Bytes : List ℕ → Type 0
Bytes = All (λ b. b < 256)

-- Bit `i`; outside the stack there is none, and the answer is of no use.
abbrev pub bit_of : Option ℕ → ℕ → Bracket
bit_of none n = curly
bit_of (some b) n = read_bit b n

abbrev pub bracket_at : List ℕ → ℕ → Bracket
bracket_at stack i = bit_of (get_elem? stack (i / 8)) (i % 8)

abbrev pub contents : List ℕ → ℕ → List Bracket
contents stack zero = []
contents stack (suc n) = bracket_at stack n ∷ contents stack n

-- The stack with bit `n` written, where `x` is the byte that holds it.
abbrev pub written : Bracket → List ℕ → ℕ → ℕ → List ℕ
written v stack x n = set stack (n / 8) (write_bit v x (n % 8))

module _ (v : Bracket) (stack : List ℕ) (x n : ℕ) (bytes : Bytes stack)
    (at_byte : get_elem? stack (n / 8) ≡ some x) (room : n < 8 * length stack) where
  byte_lt : x < 256
  byte_lt = All-get_elem? (λ b. b < 256) stack (n / 8) bytes at_byte

  new_byte : get_elem? (written v stack x n) (n / 8) ≡ some (write_bit v x (n % 8))
  new_byte = get_elem?-set_self stack (n / 8) _ (omega arith)

  pub bracket_at-written : bracket_at (written v stack x n) n ≡ v
  bracket_at-written =
      ap (λ o. bit_of o (n % 8)) new_byte
      ∙ read_bit-write_bit_self v x (n % 8) byte_lt (omega arith)

  bracket_at-written_ne : (i : ℕ) → i < n → bracket_at (written v stack x n) i ≡ bracket_at stack i
  bracket_at-written_ne i lt = elim (ℕ_discrete (n / 8) (i / 8)) [
    | yes e ↦ rw (← e) (
        ap (λ o. bit_of o (i % 8)) new_byte
        ∙ read_bit-write_bit_ne v x (n % 8) (i % 8) byte_lt (omega arith) (omega arith)
            (omega arith)
        ∙ ap (λ o. bit_of o (i % 8)) (sym at_byte))
    | no ne ↦ ap (λ o. bit_of o (i % 8)) (get_elem?-set_ne stack (n / 8) (i / 8) _ ne)
  ]

  contents-written_below : (k : ℕ) → k ≤ n → contents (written v stack x n) k ≡ contents stack k
  contents-written_below zero le = refl
  contents-written_below (suc k) le =
      let rest = contents-written_below k (omega arith) in ap₂ ◌∷◌ (bracket_at-written_ne k le) rest

  -- Writing bit `n` pushes a bracket onto the `n` that are there.
  pub contents-written : contents (written v stack x n) (suc n) ≡ v ∷ contents stack n
  contents-written = ap₂ ◌∷◌ bracket_at-written (contents-written_below n (omega arith))

  pub Bytes-written : Bytes (written v stack x n)
  Bytes-written =
      All-set (λ b. b < 256) stack (n / 8) _ bytes (write_bit-lt v x (n % 8) byte_lt (omega arith))
