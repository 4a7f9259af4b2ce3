-- ===== src/Tests/Stack.antt =====
-- The theorems about the stack of parser.c at concrete parsers, with the recording client.
use embedjson.Base.{◌+◌, ◌≤◌, ℕ, ◌≡◌, refl, true, List, [], ◌∷◌, some, replicate, arith}
use embedjson.Client.{Client}
use embedjson.Common.{null_position, stack_overflow, ret}
use embedjson.Config.{Config, default_config}
use embedjson.Parser.Stack.Laws.{HasStack, brackets}
use embedjson.Parser.Stack.Push.{stack_push_refines, stack_push-full, stack_push-early}
use embedjson.Parser.Stack.{stack_push, stack_top, stack_pop}
use embedjson.Parser.{expect_value, curly, square, Parser, error}
use embedjson.Tests.{Sym, Entry, recorder}

-- A parser on `n` zero bytes with `k` brackets open.
abbrev filled : ℕ → ℕ → Parser (List Entry)
filled n k = record {
  state = expect_value;
  stack_size = k;
  stack = replicate n 0;
  stack_capacity = n;
  user = [];
}

-- A static stack of `n` bytes.
abbrev static_config : ℕ → Config
static_config n = record default_config { static_stack_size = n }

abbrev dynamic_config : Config
dynamic_config = record default_config { dynamic_stack = true }

-- A user who hands out two bytes for one.
abbrev growing : Client (List Entry) Sym
growing = record recorder { stack_overflow = λ stack size cap log. (0, 0 ∷ 0 ∷ [], 2, log) }

two-HasStack : HasStack (static_config 2) (filled 2 3)
two-HasStack = record {
  capacity_eq = refl;
  small = omega arith;
  size_le = omega arith;
  bytes = omega arith;
}

full-HasStack : HasStack (static_config 2) (filled 2 16)
full-HasStack = record {
  capacity_eq = refl;
  small = omega arith;
  size_le = omega arith;
  bytes = omega arith;
}

stack_push_refines_example :
    (q : Parser (List Entry)) × (stack_push (static_config 2) recorder square (filled 2 3)
      ≡ ret 0 q)
    × (brackets q ≡ square ∷ brackets (filled 2 3))
    × (stack_top q ≡ some square)
    × (brackets (stack_pop q) ≡ brackets (filled 2 3))
    × (q.state ≡ expect_value)
    × (q.user ≡ [])
    × HasStack (static_config 2) q
stack_push_refines_example =
    stack_push_refines (static_config 2) recorder square (filled 2 3) two-HasStack (omega arith)

stack_push-full_example :
    stack_push (static_config 2) recorder curly (filled 2 16)
    ≡ error recorder stack_overflow null_position (filled 2 16)
stack_push-full_example =
    stack_push-full (static_config 2) recorder curly (filled 2 16) full-HasStack refl refl

stack_push-early_example :
    (stack_push (static_config 33) recorder curly (filled 33 8)
      ≡ error recorder stack_overflow null_position (filled 33 8))
    × (8 + 256 ≤ 264)
stack_push-early_example =
    stack_push-early (static_config 33) recorder curly (filled 33 8) refl refl (omega arith) refl
