-- ===== src/Parser/Invariant.antt =====
-- The invariant of the parser of parser.c: its state fits its stack of open brackets.
use embedjson.Base.{ℕ, zero, suc, ◌≤◌, ◌≡◌, refl, ap, Bool, true, false, List, [], ◌∷◌, arith}
use embedjson.Client.{Event, Client}
use embedjson.Common.{Outcome, ret, ◌>>=◌}
use embedjson.Config.{Config}
use embedjson.Parser.Stack.Laws.{HasStack, brackets, stack_pop-eq, stack_top-eq}
use embedjson.Parser.Stack.Refine.{bracket_at, contents}
use embedjson.Parser.Stack.{stack_empty}
use embedjson.Parser.Handlers.{closed}
use embedjson.Parser.{
  ParserState, expect_value, maybe_object_key, expect_object_key, expect_colon, maybe_object_comma,
  expect_object_value, maybe_array_value, expect_array_value, maybe_array_comma, done, invalid,
  Bracket, curly, square, Parser, call,
}

abbrev pub within_object : List Bracket → Bool
within_object (curly ∷ rest) = true
within_object _ = false

abbrev pub within_array : List Bracket → Bool
within_array (square ∷ rest) = true
within_array _ = false

abbrev pub outside : List Bracket → Bool
outside [] = true
outside _ = false

-- The states inside an object have its bracket on top, and those inside an array its bracket.
abbrev pub fits : ParserState → List Bracket → Bool
fits expect_value stack = outside stack
fits maybe_object_key stack = within_object stack
fits expect_object_key stack = within_object stack
fits expect_colon stack = within_object stack
fits maybe_object_comma stack = within_object stack
fits expect_object_value stack = within_object stack
fits maybe_array_value stack = within_array stack
fits expect_array_value stack = within_array stack
fits maybe_array_comma stack = within_array stack
fits done stack = outside stack
fits invalid stack = false

pub record IsParser {U : Type 0} (cfg : Config) (p : Parser U) : Type 0 where
  pub has_stack : HasStack cfg p
  pub fit : fits p.state (brackets p) ≡ true

-- Every callback of the user returns 0.
abbrev pub Obliging : {U D : Type 0} → Client U D → Type 0
Obliging {U} {D} client = (e : Event D) (u : U) → (client.event e u).0 ≡ 0

-- The parser after a callback.
abbrev pub called : {U D : Type 0} → Client U D → Event D → Parser U → Parser U
called client e p = record p { user = (client.event e p.user).1 }

pub call-bind :
    {U D : Type 0} (client : Client U D)
    → Obliging client
    → (e : Event D) (p : Parser U) (f : Parser U → Outcome (Parser U))
    → (call client e p >>= f) ≡ f (called client e p)
call-bind client o e p f = ap (λ k. ret k (called client e p) >>= f) (o e p.user)

pub bind-of_ret :
    {A : Type 0} {m : Outcome A} {a : A} (f : A → Outcome A) → m ≡ ret 0 a → (m >>= f) ≡ f a
bind-of_ret f e = ap (λ m. m >>= f) e

-- What is on top where a bracket is open.
pub contents-cons :
    (stack : List ℕ) (m : ℕ) (b : Bracket) (rest : List Bracket)
    → contents stack m ≡ b ∷ rest
    → (n : ℕ) × (m ≡ suc n) × (bracket_at stack n ≡ b) × (contents stack n ≡ rest)
contents-cons stack zero b rest e = absurd (cc e)
contents-cons stack (suc n) b rest e = (n, refl, cc, cc)

pub contents-nil : (stack : List ℕ) (m : ℕ) → contents stack m ≡ [] → m ≡ 0
contents-nil stack zero e = refl
contents-nil stack (suc n) e = absurd (cc e)

-- The state that `closed` enters, by what is left.
abbrev pub closed_state : ParserState → ParserState → List Bracket → ParserState
closed_state in_object in_array [] = done
closed_state in_object in_array (curly ∷ rest) = in_object
closed_state in_object in_array (square ∷ rest) = in_array

module _ {U : Type 0} {cfg : Config} (p : Parser U) (ok : HasStack cfg p) where
  pub HasStack-state : (st : ParserState) → HasStack cfg (record p { state = st })
  HasStack-state st = record {
    capacity_eq = ok.capacity_eq;
    small = ok.small;
    size_le = ok.size_le;
    bytes = ok.bytes;
  }

  pub HasStack-user : (u : U) → HasStack cfg (record p { user = u })
  HasStack-user u = record {
    capacity_eq = ok.capacity_eq;
    small = ok.small;
    size_le = ok.size_le;
    bytes = ok.bytes;
  }

  pub HasStack-size : (n : ℕ) → n ≤ p.stack_size → HasStack cfg (record p { stack_size = n })
  HasStack-size n le = record {
    capacity_eq = ok.capacity_eq;
    small = ok.small;
    size_le = omega (arith, ok.size_le);
    bytes = ok.bytes;
  }

  pub closed-eq :
      (in_object in_array : ParserState) (n : ℕ)
      → p.stack_size ≡ suc n
      → closed in_object in_array p
        ≡ ret 0 (record p {
          stack_size = n;
          state = closed_state in_object in_array (contents p.stack n);
        })
  unfolding closed stack_empty
  closed-eq in_object in_array zero e = rw (stack_pop-eq p ok 0 e)
  closed-eq in_object in_array (suc n) e = ground (
    arith,
    stack_pop-eq p ok (suc n) e,
    stack_top-eq (record p { stack_size = suc n }) (HasStack-size (suc n) (omega arith)) n refl,
  )
