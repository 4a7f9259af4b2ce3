-- ===== src/Parser/Json/Parts.antt =====
-- Closing brackets and whole strings on a parser whose state, brackets and user are known.
use embedjson.Base.{ℕ, ◌≡◌, refl, ap, ◌∙◌, List, [], ◌∷◌, Option, some, arith}
use embedjson.Client.{string_begin, string_chunk, string_end, object_end, array_end, Client}
use embedjson.Common.{Position, ret}
use embedjson.Config.{Config}
use embedjson.Lexer.Double.{Doubles}
use embedjson.Lexer.Push.Written
use embedjson.Lexer.Push.Written.{run_call, chunk_call}
use embedjson.Lexer.{close_curly_bracket, close_bracket}
use embedjson.Parser.Api.{parser_sink}
use embedjson.Parser.Automaton.{fsm, string}
use embedjson.Parser.Handlers.Scalars.{check_state}
use embedjson.Parser.Handlers.Strings.{tokenc}
use embedjson.Parser.Handlers.{
  token, token_in, token_maybe_object_key, token_maybe_object_comma, token_maybe_array_value,
  token_maybe_array_comma, close_object, close_array,
}
use embedjson.Parser.Invariant.{
  Obliging, called, bind-of_ret, closed_state, HasStack-state, HasStack-user,
}
use embedjson.Parser.Json.Places.{At, Leaves, behind_value, call-done}
use embedjson.Parser.Json.Brackets.{closed_step}
use embedjson.Parser.Json.Steps.{in_state}
use embedjson.Parser.Json.{told, told_chunk, told_text}
use embedjson.Parser.Moves.{check_top-eq}
use embedjson.Parser.Stack.Laws.{brackets}
use embedjson.Parser.Values.{string-follows-fsm}
use embedjson.Parser.{
  ParserState, maybe_object_key, expect_object_key, expect_colon, maybe_object_comma,
  maybe_array_value, maybe_array_comma, Bracket, curly, square, Parser,
}

-- The state behind a string, in the states that take one.
abbrev pub behind_text : ParserState → Option ParserState
behind_text maybe_object_key = some expect_colon
behind_text expect_object_key = some expect_colon
behind_text st = behind_value st

behind_text-fsm :
    (st : ParserState) (stack : List Bracket) {next : ParserState}
    → behind_text st ≡ some next
    → fsm st stack string ≡ some (next, stack)
unfolding fsm
behind_text-fsm st stack b = ground arith

pub behind_value-text :
    (st : ParserState) {next : ParserState}
    → behind_value st ≡ some next
    → behind_text st ≡ some next
behind_value-text st b = ground arith

module _ {U D : Type 0} (cfg : Config) (client : Client U D) (obliging : Obliging client)
    (position : Position) {p : Parser U} {cap : ℕ} (stack : List Bracket) {u : U} where
  -- `]`; the argument is the state taken inside an object.
  array_closes-At :
      (in_object : ParserState) {st : ParserState}
      → At cfg cap st (square ∷ stack) u p
      → Leaves cfg cap
          (closed_state in_object maybe_array_comma stack)
          stack
          (told client array_end u)
          (close_array cfg client in_object position p)
  unfolding close_array
  array_closes-At in_object a =
      let (q, e, after) =
        closed_step cfg client obliging position p a.has_stack square stack a array_end in_object in
      (q, check_top-eq cfg client square position p _ a.has_stack stack a.brackets_eq ∙ e, after)

  object_closes-At :
      {st : ParserState}
      → At cfg cap st (curly ∷ stack) u p
      → Leaves cfg cap
          (closed_state maybe_object_comma maybe_array_comma stack)
          stack
          (told client object_end u)
          (close_object cfg client position p)
  unfolding close_object
  object_closes-At a =
      let (q, e, after) =
        closed_step cfg client obliging position p a.has_stack curly stack a object_end
          maybe_object_comma in
      (q, check_top-eq cfg client curly position p _ a.has_stack stack a.brackets_eq ∙ e, after)

  pub array_closes :
      At cfg cap maybe_array_comma (square ∷ stack) u p
      → Leaves cfg cap
          (closed_state maybe_object_comma maybe_array_comma stack)
          stack
          (told client array_end u)
          (token cfg client close_bracket position p)
  unfolding token_in token_maybe_array_comma
  array_closes a =
      in_state cfg client obliging position a close_bracket (array_closes-At maybe_object_comma a)

  pub empty_array_closes :
      At cfg cap maybe_array_value (square ∷ stack) u p
      → Leaves cfg cap
          (closed_state maybe_object_key maybe_array_comma stack)
          stack
          (told client array_end u)
          (token cfg client close_bracket position p)
  unfolding token_in token_maybe_array_value
  empty_array_closes a =
      in_state cfg client obliging position a close_bracket (array_closes-At maybe_object_key a)

  pub object_closes :
      At cfg cap maybe_object_comma (curly ∷ stack) u p
      → Leaves cfg cap
          (closed_state maybe_object_comma maybe_array_comma stack)
          stack
          (told client object_end u)
          (token cfg client close_curly_bracket position p)
  unfolding token_in token_maybe_object_comma
  object_closes a = in_state cfg client obliging position a close_curly_bracket (object_closes-At a)

  pub empty_object_closes :
      At cfg cap maybe_object_key (curly ∷ stack) u p
      → Leaves cfg cap
          (closed_state maybe_object_comma maybe_array_comma stack)
          stack
          (told client object_end u)
          (token cfg client close_curly_bracket position p)
  unfolding token_in token_maybe_object_key
  empty_object_closes a =
      in_state cfg client obliging position a close_curly_bracket (object_closes-At a)

module _ {U D : Type 0} (cfg : Config) (fl : Doubles D) (client : Client U D)
    (obliging : Obliging client) {p : Parser U} {cap : ℕ} {st next : ParserState}
    {stack : List Bracket} {u : U} (a : At cfg cap st stack u p) (b : behind_text st ≡ some next)
    (before chunk after : Position) where
  chunk_at :
      (cs : List ℕ) (q : Parser U)
      → q.state ≡ st
      → chunk_call (parser_sink cfg fl client) cs chunk q
        ≡ ret 0 (record q { user = told_chunk client cs q.user })
  unfolding tokenc check_state
  chunk_at [] q e = refl
  chunk_at (c ∷ cs) q e = ground (arith, call-done client obliging (string_chunk (c ∷ cs)) q)

  follows : fsm p.state (brackets p) string ≡ some (next, brackets p)
  follows = rw a.state_eq (behind_text-fsm st (brackets p) b)

  -- A string, where it is a key or a value.
  pub text_taken :
      (cs : List ℕ)
      → Leaves cfg cap next stack
          (told_text client cs u)
          (run_call fl (parser_sink cfg fl client) (Written.string before cs chunk after) p)
  text_taken cs =
      let begun = called client string_begin p in
      let filled = record begun { user = told_chunk client cs begun.user } in
      let (begins, ends, same) = string-follows-fsm cfg client p follows before after filled.user in
      (
        record p { state = next; user = told client string_end filled.user },
        bind-of_ret _ (begins ∙ call-done client obliging string_begin p)
            ∙ bind-of_ret _ (chunk_at cs begun a.state_eq)
            ∙ ends
            ∙ call-done client obliging string_end (record p { state = next; user = filled.user }),
        record {
          state_eq = refl;
          brackets_eq = a.brackets_eq;
          user_eq = ap (told_text client cs) a.user_eq;
          length_eq = a.length_eq;
          has_stack = HasStack-state _ (HasStack-user p a.has_stack _) _;
        },
      )
