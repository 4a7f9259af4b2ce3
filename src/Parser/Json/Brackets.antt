-- ===== src/Parser/Json/Brackets.antt =====
-- The brackets of `embedjson_token` on a parser whose state, brackets and user are known.
use embedjson.Base.{ℕ, ◌*◌, ◌<◌, ◌≡◌, refl, ap, ◌∙◌, List, ◌∷◌, some, length, length-set, arith}
use embedjson.Client.{Event, object_begin, array_begin, Client}
use embedjson.Common.{Position, ret, ◌>>=◌}
use embedjson.Config.{Config}
use embedjson.Lexer.{open_curly_bracket, open_bracket}
use embedjson.Parser.Json.{told}
use embedjson.Parser.Handlers.{
  token_in, token_expect_value, token_expect_object_value, token_maybe_array_value,
  token_expect_array_value, open_object, open_array, closed,
}
use embedjson.Parser.Invariant.{
  Obliging, called, call-bind, bind-of_ret, closed-eq, closed_state, contents-cons, HasStack-state,
  HasStack-user, HasStack-size,
}
use embedjson.Parser.Moves.{stack_push-eq}
use embedjson.Parser.Stack.Laws.{HasStack, pushed, HasStack-pushed, brackets-pushed}
use embedjson.Parser.Stack.Refine.{contents}
use embedjson.Parser.{
  ParserState, expect_value, maybe_object_key, expect_object_value, maybe_array_value,
  expect_array_value, maybe_array_comma, Bracket, curly, square, Parser, call,
}
use embedjson.Parser.Json.Places.{At, Leaves, behind_value, call-done}

module _ {U D : Type 0} (cfg : Config) (client : Client U D) (obliging : Obliging client)
    (position : Position) (p : Parser U) (ok : HasStack cfg p) where
  module _ (room : p.stack_size < 8 * length p.stack) where
    -- The parser behind an opening bracket.
    abbrev opened : Event D → Bracket → ParserState → Parser U
    opened e b st = record (called client e (pushed b p)) { state = st }

    open_array-eq : open_array cfg client p ≡ ret 0 (opened array_begin square maybe_array_value)
    unfolding open_array
    open_array-eq =
        bind-of_ret _ (stack_push-eq cfg client square p ok room)
        ∙ call-bind client obliging array_begin (pushed square p) _

    open_object-eq : open_object cfg client p ≡ ret 0 (opened object_begin curly maybe_object_key)
    unfolding open_object
    open_object-eq =
        bind-of_ret _ (stack_push-eq cfg client curly p ok room)
        ∙ call-bind client obliging object_begin (pushed curly p) _

    pub open_array_in :
        (st : ParserState) {next : ParserState}
        → behind_value st ≡ some next
        → p.state ≡ st
        → token_in cfg client st open_bracket position p
          ≡ ret 0 (opened array_begin square maybe_array_value)
    unfolding token_in token_expect_value token_expect_object_value token_maybe_array_value
        token_expect_array_value
    open_array_in expect_value b e = open_array-eq
    open_array_in expect_object_value b e = open_array-eq
    open_array_in maybe_array_value b e =
        bind-of_ret _ (stack_push-eq cfg client square p ok room)
        ∙ call-done client obliging array_begin (pushed square p)
        ∙ ap (λ st. ret 0 (opened array_begin square st)) e
    open_array_in expect_array_value b e = open_array-eq
    open_array_in _ b e = cc

    pub open_object_in :
        (st : ParserState) {next : ParserState}
        → behind_value st ≡ some next
        → token_in cfg client st open_curly_bracket position p
          ≡ ret 0 (opened object_begin curly maybe_object_key)
    unfolding token_in token_expect_value token_expect_object_value token_maybe_array_value
        token_expect_array_value
    open_object_in expect_value b = open_object-eq
    open_object_in expect_object_value b = open_object-eq
    open_object_in maybe_array_value b = open_object-eq
    open_object_in expect_array_value b = open_object-eq
    open_object_in _ b = cc

    pub At-opened :
        {cap : ℕ} {st : ParserState} {stack : List Bracket} {u : U} (e : Event D) (b : Bracket)
        (after : ParserState)
        → At cfg cap st stack u p
        → At cfg cap after (b ∷ stack) (told client e u) (opened e b after)
    At-opened e b after a = record {
      state_eq = refl;
      brackets_eq = brackets-pushed p ok b room ∙ ap (λ s. b ∷ s) a.brackets_eq;
      user_eq = ap (told client e) a.user_eq;
      length_eq = length-set p.stack _ _ ∙ a.length_eq;
      has_stack = HasStack-state _ (HasStack-user _ (HasStack-pushed p ok b room) _) _;
    }

  -- A closing bracket, where `b` is on top.
  module _ {cap : ℕ} {st : ParserState} (b : Bracket) (stack : List Bracket) {u : U}
      (a : At cfg cap st (b ∷ stack) u p) (e : Event D) where
    pub closed_step :
        (in_object : ParserState)
        → Leaves cfg cap
            (closed_state in_object maybe_array_comma stack)
            stack
            (told client e u)
            (call client e p >>= closed in_object maybe_array_comma)
    closed_step in_object =
        let (n, size, top, below) = contents-cons p.stack p.stack_size b stack a.brackets_eq in
        let q = called client e p in
        (
          record q {
            stack_size = n;
            state = closed_state in_object maybe_array_comma (contents p.stack n);
          },
          call-bind client obliging e p _
              ∙ closed-eq q (HasStack-user p ok _) in_object maybe_array_comma n size,
          record {
            state_eq = ap (closed_state in_object maybe_array_comma) below;
            brackets_eq = below;
            user_eq = ap (told client e) a.user_eq;
            length_eq = a.length_eq;
            has_stack = HasStack-state _ (HasStack-size _ (HasStack-user p ok _) n (omega arith)) _;
          },
        )
