-- ===== src/Tests/Lint.antt =====
-- The theorems about embedjson_lint.c at concrete inputs.
use embedjson.Base.{
  ℕ, zero, suc, ◌*◌, ◌≤◌, ◌<◌, ◌≡◌, ◌≢◌, refl, true, false, List, [], ◌∷◌, Option, none, some,
  length, get_elem?, replicate, arith,
}
use embedjson.Common.{ret, fault}
use embedjson.Config.{Config, default_config}
use embedjson.Lexer.{in_number, initial_lexer}
use embedjson.Lint.Growth.{Reallocates, stack_push-doubles, dynamic-overrun}
use embedjson.Lint.Main.{read_loop}
use embedjson.Lint.Misread.{read_loop-misreads}
use embedjson.Lint.{Lint, initial_lint, lint_client, minus_one}
use embedjson.Parser.Api.{initial_parser}
use embedjson.Parser.Stack.Laws.{HasStack, brackets}
use embedjson.Parser.Stack.Refine.{Bytes}
use embedjson.Parser.Stack.{stack_full, stack_push}
use embedjson.Parser.{Parser, expect_value, maybe_array_comma, square}
use embedjson.Tests.{Sym, symbolic}

-- A block with zero bytes behind the old ones.
unfoldable padded : List ℕ → ℕ → List ℕ
padded [] zero = []
padded [] (suc n) = 0 ∷ padded [] n
padded (b ∷ bytes) zero = []
padded (b ∷ bytes) (suc n) = b ∷ padded bytes n

length-padded : (bytes : List ℕ) (n : ℕ) → length (padded bytes n) ≡ n
unfolding padded
length-padded [] zero = refl
length-padded [] (suc n) = omega (arith, length-padded [] n)
length-padded (b ∷ bytes) zero = refl
length-padded (b ∷ bytes) (suc n) = omega (arith, length-padded bytes n)

get_elem?-padded :
    (bytes : List ℕ) (n i : ℕ)
    → length bytes ≤ n
    → i < length bytes
    → get_elem? (padded bytes n) i ≡ get_elem? bytes i
unfolding padded
get_elem?-padded [] n i le lt = absurd (omega arith)
get_elem?-padded (b ∷ bytes) zero i le lt = absurd (omega arith)
get_elem?-padded (b ∷ bytes) (suc n) zero le lt = refl
get_elem?-padded (b ∷ bytes) (suc n) (suc i) le lt =
    get_elem?-padded bytes n i (omega arith) (omega arith)

Bytes-padded : (bytes : List ℕ) (n : ℕ) → Bytes bytes → Bytes (padded bytes n)
unfolding padded
Bytes-padded [] zero h = tt
Bytes-padded [] (suc n) h = (omega arith, Bytes-padded [] n tt)
Bytes-padded (b ∷ bytes) zero h = tt
Bytes-padded (b ∷ bytes) (suc n) h = (h.0, Bytes-padded bytes n h.1)

abbrev allocator : List ℕ → ℕ → Option (List ℕ)
allocator stack n = some (padded stack n)

allocator-Reallocates : Reallocates allocator
allocator-Reallocates stack new n le e =
    let same : padded stack n ≡ new = cc in
    rw (← same)
      (length-padded stack n, λ i lt. get_elem?-padded stack n i le lt, Bytes-padded stack n)

-- A full stack of `n` zero bytes of a dynamic parser.
abbrev full_parser : ℕ → Parser (Lint Sym)
full_parser n = record {
  state = expect_value;
  stack_size = 8 * n;
  stack = replicate n 0;
  stack_capacity = n;
  user = initial_lint;
}

abbrev dynamic_config : Config
dynamic_config = record default_config { dynamic_stack = true }

full_parser-HasStack : HasStack dynamic_config (full_parser 3)
full_parser-HasStack = record {
  capacity_eq = refl;
  small = omega arith;
  size_le = omega arith;
  bytes = omega arith;
}

stack_push-doubles_example :
    ((new : List ℕ)
      → allocator (0 ∷ 0 ∷ 0 ∷ []) 7 ≡ some new
      → (q : Parser (Lint Sym)) × (stack_push dynamic_config
            (lint_client allocator)
            square
            (full_parser 3)
          ≡ ret 0 q)
        × (brackets q ≡ square ∷ brackets (full_parser 3))
        × HasStack dynamic_config q)
    × (allocator (0 ∷ 0 ∷ 0 ∷ []) 7 ≡ none
        → stack_push dynamic_config (lint_client allocator) square (full_parser 3)
          ≡ ret minus_one (full_parser 3))
stack_push-doubles_example =
    stack_push-doubles dynamic_config allocator square (full_parser 3) refl full_parser-HasStack
      allocator-Reallocates (omega arith) refl

dynamic-overrun_example :
    (◌≢◌ {A = ℕ} 504 248 → stack_full dynamic_config (full_parser 63) ≡ false)
    × (◌≡◌ {A = ℕ} 504 504
        → stack_push dynamic_config (lint_client allocator) square (full_parser 63) ≡ fault)
dynamic-overrun_example =
    dynamic-overrun dynamic_config allocator square (full_parser 63) refl refl (omega arith)

-- `[1 2`, whose last number is ended by a space
read_loop-misreads_example :
    read_loop default_config symbolic
      (lint_client allocator)
      (b' ' ∷ b']' ∷ [])
      b'2'
      (record initial_lexer { state = in_number; int_value = 2 })
      (record (initial_parser (replicate 16 0) 0 initial_lint) { state = maybe_array_comma })
    ≡ some fault
read_loop-misreads_example =
    read_loop-misreads default_config symbolic allocator
      (record initial_lexer { state = in_number; int_value = 2 })
      (record (initial_parser (replicate 16 0) 0 initial_lint) { state = maybe_array_comma }) b' '
      b'2' (b']' ∷ []) refl refl refl refl (λ e. absurd (omega arith)) refl
