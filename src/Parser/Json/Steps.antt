-- ===== src/Parser/Json/Steps.antt =====
-- The calls of the lexer one by one on a parser whose state, brackets and user are known.
use embedjson.Base.Ints.{ℤ}
use embedjson.Parser.Handlers.Scalars.{tokeni, tokeni_in, tokenf, tokenf_in}
use embedjson.Base.{ℕ, ◌*◌, ◌<◌, ◌≡◌, refl, ap, ◌∙◌, List, ◌∷◌, some, length, arith}
use embedjson.Client.{Event, int, double, object_begin, array_begin, Client}
use embedjson.Common.{Position}
use embedjson.Config.{Config}
use embedjson.Lexer.{Token, open_curly_bracket, open_bracket, comma, colon}
use embedjson.Parser.Json.{told}
use embedjson.Parser.Handlers.{
  token, token_in, token_expect_value, token_expect_colon, token_maybe_object_comma,
  token_expect_object_value, token_maybe_array_value, token_expect_array_value,
  token_maybe_array_comma, primitive,
}
use embedjson.Parser.Invariant.{Obliging, called, call-bind, HasStack-state, HasStack-user}
use embedjson.Parser.{
  ParserState, maybe_object_key, expect_object_key, expect_colon, maybe_object_comma,
  expect_object_value, maybe_array_value, expect_array_value, maybe_array_comma, Bracket, curly,
  square, Parser, call,
}
use embedjson.Parser.Json.Places.{At, Leaves, behind_value, word_event, length-contents, call-done}
use embedjson.Parser.Json.Brackets.{open_array_in, open_object_in, At-opened}

-- The calls on a parser that is `At` a state.
module _ {U D : Type 0} (cfg : Config) (client : Client U D) (obliging : Obliging client)
    (position : Position) {p : Parser U} {cap : ℕ} {st : ParserState} {stack : List Bracket} {u : U}
    (a : At cfg cap st stack u p) where
  -- The function of one state in place of the `switch` on the parser's.
  pub in_state :
      {st' : ParserState} {stack' : List Bracket} {u' : U} (t : Token)
      → Leaves cfg cap st' stack' u' (token_in cfg client st t position p)
      → Leaves cfg cap st' stack' u' (token cfg client t position p)
  in_state t (q, e, after) = (q, ap (λ s. token_in cfg client s t position p) a.state_eq ∙ e, after)

  At-state : (after : ParserState) → At cfg cap after stack u (record p { state = after })
  At-state after = record {
    state_eq = refl;
    brackets_eq = a.brackets_eq;
    user_eq = a.user_eq;
    length_eq = a.length_eq;
    has_stack = HasStack-state p a.has_stack after;
  }

  At-after :
      (e : Event D) (after : ParserState)
      → At cfg cap after stack (told client e u) (record (called client e p) { state = after })
  At-after e after = record {
    state_eq = refl;
    brackets_eq = a.brackets_eq;
    user_eq = ap (told client e) a.user_eq;
    length_eq = a.length_eq;
    has_stack = HasStack-state _ (HasStack-user p a.has_stack _) after;
  }

  tokeni_at :
      (n : ℤ) (s : ParserState) {next : ParserState}
      → behind_value s ≡ some next
      → tokeni_in cfg client s n position p ≡ call client (int n) (record p { state = next })
  unfolding tokeni_in
  tokeni_at n s b = ground arith

  tokenf_at :
      (x : D) (s : ParserState) {next : ParserState}
      → behind_value s ≡ some next
      → tokenf_in cfg client s x position p ≡ call client (double x) (record p { state = next })
  unfolding tokenf_in
  tokenf_at x s b = ground arith

  room_left : length stack < 8 * cap → p.stack_size < 8 * length p.stack
  room_left h =
      omega (arith, length-contents p.stack p.stack_size, ap length a.brackets_eq, a.length_eq)

  pub array_opens :
      {next : ParserState}
      → behind_value st ≡ some next
      → length stack < 8 * cap
      → Leaves cfg cap maybe_array_value
          (square ∷ stack)
          (told client array_begin u)
          (token cfg client open_bracket position p)
  array_opens b h = in_state open_bracket (
    _,
    open_array_in cfg client obliging position p a.has_stack (room_left h) st b a.state_eq,
    At-opened cfg client obliging position p a.has_stack (room_left h) array_begin square _ a,
  )

  pub object_opens :
      {next : ParserState}
      → behind_value st ≡ some next
      → length stack < 8 * cap
      → Leaves cfg cap maybe_object_key
          (curly ∷ stack)
          (told client object_begin u)
          (token cfg client open_curly_bracket position p)
  object_opens b h = in_state open_curly_bracket (
    _,
    open_object_in cfg client obliging position p a.has_stack (room_left h) st b,
    At-opened cfg client obliging position p a.has_stack (room_left h) object_begin curly _ a,
  )

  pub key_marked :
      st ≡ expect_colon
      → Leaves cfg cap expect_object_value stack u (token cfg client colon position p)
  unfolding token_in token_expect_colon
  key_marked e = in_state colon (
    record p { state = expect_object_value },
    ap (λ s. token_in cfg client s colon position p) e,
    At-state expect_object_value,
  )

  pub comma_in_array :
      st ≡ maybe_array_comma
      → Leaves cfg cap expect_array_value stack u (token cfg client comma position p)
  unfolding token_in token_maybe_array_comma
  comma_in_array e = in_state comma (
    record p { state = expect_array_value },
    ap (λ s. token_in cfg client s comma position p) e,
    At-state expect_array_value,
  )

  pub comma_in_object :
      st ≡ maybe_object_comma
      → Leaves cfg cap expect_object_key stack u (token cfg client comma position p)
  unfolding token_in token_maybe_object_comma
  comma_in_object e = in_state comma (
    record p { state = expect_object_key },
    ap (λ s. token_in cfg client s comma position p) e,
    At-state expect_object_key,
  )

  primitive_in :
      (t : Token) (e : Event D) (s : ParserState) {next : ParserState}
      → word_event t ≡ some e
      → behind_value s ≡ some next
      → token_in cfg client s t position p ≡ primitive cfg client e next p
  unfolding token_in token_expect_value token_expect_object_value token_maybe_array_value
      token_expect_array_value
  primitive_in t e s w b = ground arith

  pub word_taken :
      (t : Token) (e : Event D) {next : ParserState}
      → word_event t ≡ some e
      → behind_value st ≡ some next
      → Leaves cfg cap next stack (told client e u) (token cfg client t position p)
  word_taken t e {next} w b = in_state t (
    record (called client e p) { state = next },
    primitive_in t e st w b ∙ call-bind client obliging e p _,
    At-after e next,
  )

  pub integer_taken :
      (n : ℤ) {next : ParserState}
      → behind_value st ≡ some next
      → Leaves cfg cap next stack (told client (int n) u) (tokeni cfg client n position p)
  unfolding tokeni_in
  integer_taken n {next} b = (
    record (called client (int n) p) { state = next },
    ap (λ s. tokeni_in cfg client s n position p) a.state_eq
        ∙ tokeni_at n st b
        ∙ call-done client obliging (int n) _,
    At-after (int n) next,
  )

  pub double_taken :
      (x : D) {next : ParserState}
      → behind_value st ≡ some next
      → Leaves cfg cap next stack (told client (double x) u) (tokenf cfg client x position p)
  double_taken x {next} b = (
    record (called client (double x) p) { state = next },
    ap (λ s. tokenf_in cfg client s x position p) a.state_eq
        ∙ tokenf_at x st b
        ∙ call-done client obliging (double x) _,
    At-after (double x) next,
  )
