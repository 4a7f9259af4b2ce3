-- ===== src/Parser/Moves.antt =====
-- What the pieces of `embedjson_token` of parser.c do where no callback fails: opening and closing
-- a bracket, and a primitive.
use embedjson.Base.{◌*◌, ◌<◌, ◌≡◌, refl, ap, ◌∙◌, List, ◌∷◌, length, arith}
use embedjson.Client.{Event, Client, object_begin, object_end, array_begin, array_end}
use embedjson.Common.{Position, Outcome, ret, ◌>>=◌}
use embedjson.Config.{Config}
use embedjson.Parser.Stack.Laws.{
  HasStack, brackets, pushed, stack_top-eq, stack_full-eq, stack_write-eq, HasStack-pushed,
  brackets-pushed,
}
use embedjson.Parser.Stack.Refine.{contents}
use embedjson.Parser.Stack.{stack_empty, stack_push}
use embedjson.Parser.Handlers.{
  enter, closed, check_top, open_object, open_array, close_object, close_array, primitive,
}
use embedjson.Parser.Invariant.{
  Obliging, called, call-bind, bind-of_ret, closed-eq, closed_state, contents-cons, HasStack-state,
  HasStack-user, HasStack-size,
}
use embedjson.Parser.{
  ParserState, maybe_object_key, maybe_object_comma, maybe_array_value, maybe_array_comma, Bracket,
  curly, square, Parser, call,
}

-- `m` returns 0 and leaves a parser in state `st` with the brackets `stack` open.
pub record Moves {U : Type 0} (cfg : Config) (st : ParserState) (stack : List Bracket)
    (m : Outcome (Parser U)) : Type 0 where
  pub after : Parser U
  pub returns : m ≡ ret 0 after
  pub state_eq : after.state ≡ st
  pub brackets_eq : brackets after ≡ stack
  pub has_stack : HasStack cfg after

module _ {U D : Type 0} (cfg : Config) (client : Client U D) where
  pub stack_push-eq :
      (v : Bracket) (p : Parser U)
      → HasStack cfg p
      → p.stack_size < 8 * length p.stack
      → stack_push cfg client v p ≡ ret 0 (pushed v p)
  unfolding stack_push
  stack_push-eq v p ok h = ground (arith, stack_full-eq p ok, stack_write-eq p ok v h)

  -- The self-check finds nothing where the expected bracket is on top.
  pub check_top-eq :
      (b : Bracket) (position : Position) (p : Parser U) (rest : Outcome (Parser U))
      → HasStack cfg p
      → (below : List Bracket) → brackets p ≡ b ∷ below
      → check_top cfg client b position p rest ≡ rest
  unfolding check_top stack_empty
  check_top-eq b position p rest ok below e =
      let (n, size, top, under) = contents-cons p.stack p.stack_size b below e in
      ground (arith, stack_top-eq p ok n size)

module _ {U D : Type 0} (cfg : Config) (client : Client U D) (obliging : Obliging client)
    (p : Parser U) (ok : HasStack cfg p) where
  pub open_object-Moves :
      p.stack_size < 8 * length p.stack
      → Moves cfg maybe_object_key (curly ∷ brackets p) (open_object cfg client p)
  unfolding open_object
  open_object-Moves h = record {
    after = record (called client object_begin (pushed curly p)) { state = maybe_object_key };
    returns =
        bind-of_ret _ (stack_push-eq cfg client curly p ok h)
        ∙ call-bind client obliging object_begin (pushed curly p) _;
    state_eq = refl;
    brackets_eq = brackets-pushed p ok curly h;
    has_stack = HasStack-state _ (HasStack-user _ (HasStack-pushed p ok curly h) _) _;
  }

  pub open_array-Moves :
      p.stack_size < 8 * length p.stack
      → Moves cfg maybe_array_value (square ∷ brackets p) (open_array cfg client p)
  unfolding open_array
  open_array-Moves h = record {
    after = record (called client array_begin (pushed square p)) { state = maybe_array_value };
    returns =
        bind-of_ret _ (stack_push-eq cfg client square p ok h)
        ∙ call-bind client obliging array_begin (pushed square p) _;
    state_eq = refl;
    brackets_eq = brackets-pushed p ok square h;
    has_stack = HasStack-state _ (HasStack-user _ (HasStack-pushed p ok square h) _) _;
  }

  -- `[` where the state is MAYBE_ARRAY_VALUE already
  pub again_array-Moves :
      p.stack_size < 8 * length p.stack
      → p.state ≡ maybe_array_value
      → Moves cfg maybe_array_value
          (square ∷ brackets p)
          (stack_push cfg client square p >>= call client array_begin)
  again_array-Moves h st = record {
    after = called client array_begin (pushed square p);
    returns =
        bind-of_ret _ (stack_push-eq cfg client square p ok h)
        ∙ ap (λ k. ret k (called client array_begin (pushed square p)))
            (obliging array_begin p.user);
    state_eq = st;
    brackets_eq = brackets-pushed p ok square h;
    has_stack = HasStack-user _ (HasStack-pushed p ok square h) _;
  }

  pub closed-Moves :
      (e : Event D) (in_object in_array : ParserState) (b : Bracket) (rest : List Bracket)
      → brackets p ≡ b ∷ rest
      → Moves cfg
          (closed_state in_object in_array rest)
          rest
          (call client e p >>= closed in_object in_array)
  closed-Moves e in_object in_array b rest top =
      let (n, size, at_n, below) = contents-cons p.stack p.stack_size b rest top in
      let q = called client e p in
      record {
        after = record q {
          stack_size = n;
          state = closed_state in_object in_array (contents p.stack n);
        };
        returns =
            (call-bind client obliging e p _
              ∙ closed-eq q (HasStack-user p ok _) in_object in_array n size);
        state_eq = ap (closed_state in_object in_array) below;
        brackets_eq = below;
        has_stack = HasStack-state _ (HasStack-size _ (HasStack-user p ok _) n (omega arith)) _;
      }

  pub close_object-Moves :
      (position : Position) (rest : List Bracket)
      → brackets p ≡ curly ∷ rest
      → Moves cfg
          (closed_state maybe_object_comma maybe_array_comma rest)
          rest
          (close_object cfg client position p)
  unfolding close_object
  close_object-Moves position rest top =
      rw (check_top-eq cfg client curly position p _ ok rest top)
        (closed-Moves object_end _ _ curly rest top)

  pub close_array-Moves :
      (in_object : ParserState) (position : Position) (rest : List Bracket)
      → brackets p ≡ square ∷ rest
      → Moves cfg
          (closed_state in_object maybe_array_comma rest)
          rest
          (close_array cfg client in_object position p)
  unfolding close_array
  close_array-Moves in_object position rest top =
      rw (check_top-eq cfg client square position p _ ok rest top)
        (closed-Moves array_end _ _ square rest top)

  pub primitive-Moves :
      (e : Event D) (st : ParserState) → Moves cfg st (brackets p) (primitive cfg client e st p)
  primitive-Moves e st = record {
    after = record (called client e p) { state = st };
    returns = call-bind client obliging e p _;
    state_eq = refl;
    brackets_eq = refl;
    has_stack = HasStack-state _ (HasStack-user p ok _) _;
  }

  pub enter-Moves : (st : ParserState) → Moves cfg st (brackets p) (enter st p)
  enter-Moves st = record {
    after = record p { state = st };
    returns = refl;
    state_eq = refl;
    brackets_eq = refl;
    has_stack = HasStack-state p ok st;
  }
