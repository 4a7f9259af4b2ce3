-- ===== src/Parser/Json/Places.antt =====
-- A parser whose state, brackets and user are known: what the calls of a JSON value in parser.c are
-- stated over.
use embedjson.Base.{Bool, ℕ, zero, suc, ◌≡◌, refl, ap, List, Option, none, some, length}
use embedjson.Client.{Event, null, bool, Client}
use embedjson.Common.{Outcome, ret}
use embedjson.Config.{Config}
use embedjson.Lexer.{Token, true_token, false_token, null_token}
use embedjson.Parser.Invariant.{Obliging, called}
use embedjson.Parser.Stack.Laws.{HasStack, brackets}
use embedjson.Parser.Stack.Refine.{contents}
use embedjson.Parser.{
  ParserState, expect_value, maybe_object_comma, expect_object_value, maybe_array_value,
  expect_array_value, maybe_array_comma, done, Bracket, Parser, call,
}

-- The parser `p` is in state `st` with the brackets `stack` open, on a stack of `cap` bytes, and its
-- user in state `u`.
pub record At {U : Type 0} (cfg : Config) (cap : ℕ) (st : ParserState) (stack : List Bracket)
    (u : U) (p : Parser U) : Type 0 where
  pub state_eq : p.state ≡ st
  pub brackets_eq : brackets p ≡ stack
  pub user_eq : p.user ≡ u
  pub length_eq : length p.stack ≡ cap
  pub has_stack : HasStack cfg p

-- `m` returns 0 and leaves such a parser.
abbrev pub Leaves :
    {U : Type 0} → Config → ℕ → ParserState → List Bracket → U → Outcome (Parser U) → Type 0
Leaves {U} cfg cap st stack u m = (q : Parser U) × (m ≡ ret 0 q) × At cfg cap st stack u q

-- The state behind a value, in the states that want one.
abbrev pub behind_value : ParserState → Option ParserState
behind_value expect_value = some done
behind_value expect_object_value = some maybe_object_comma
behind_value maybe_array_value = some maybe_array_comma
behind_value expect_array_value = some maybe_array_comma
behind_value _ = none

-- The event of a keyword.
abbrev pub word_event : {D : Type 0} → Token → Option (Event D)
word_event null_token = some null
word_event true_token = some (bool Bool.true)
word_event false_token = some (bool Bool.false)
word_event _ = none

pub length-contents : (stack : List ℕ) (n : ℕ) → length (contents stack n) ≡ n
length-contents stack zero = refl
length-contents stack (suc n) = ap suc (length-contents stack n)

pub call-done :
    {U D : Type 0} (client : Client U D)
    → Obliging client
    → (e : Event D) (q : Parser U) → call client e q ≡ ret 0 (called client e q)
call-done client obliging e q = ap (λ k. ret k (called client e q)) (obliging e q.user)
