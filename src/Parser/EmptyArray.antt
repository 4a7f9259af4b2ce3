-- ===== src/Parser/EmptyArray.antt =====
-- An empty array as a value in an object, where parser.c leaves the automaton of
-- doc/syntax-parser-fsm.dot.
use embedjson.Base.{◌≡◌, refl, List, ◌∷◌}
use embedjson.Client.{Client, string_begin}
use embedjson.Common
use embedjson.Common.{Position, Outcome, ret}
use embedjson.Config.{Config}
use embedjson.Lexer.{close_bracket, comma}
use embedjson.Parser.Handlers.{token_in, token, token_maybe_array_value, token_maybe_object_key}
use embedjson.Parser.Handlers.Strings.{tokenc_begin_in, tokenc_begin}
use embedjson.Parser.Invariant.{Obliging, IsParser}
use embedjson.Parser.Moves.{Moves, close_array-Moves}
use embedjson.Parser.Stack.Laws.{brackets}
use embedjson.Parser.{
  ParserState, maybe_object_key, maybe_array_value, Bracket, curly, square, Parser, call, error,
}

module _ {U D : Type 0} (cfg : Config) (client : Client U D) (p : Parser U) where
  token_in-empty_array :
      Obliging client
      → IsParser cfg p
      → (st : ParserState) → st ≡ maybe_array_value
      → (rest : List Bracket) → brackets p ≡ square ∷ curly ∷ rest
      → (position : Position)
      → Moves cfg maybe_object_key (curly ∷ rest) (token_in cfg client st close_bracket position p)
  unfolding token_in token_maybe_array_value
  token_in-empty_array o ok maybe_array_value e rest top position =
      close_array-Moves cfg client o p ok.has_stack maybe_object_key position (curly ∷ rest) top
  token_in-empty_array o ok _ e rest top position = cc

  at_key :
      (q : Parser U) (st : ParserState) (position : Position)
      → st ≡ maybe_object_key
      → (token_in cfg client st comma position q ≡ error client Common.exp_object_key position q)
        × (tokenc_begin_in cfg client st position q ≡ call client string_begin q)
  unfolding token_in token_maybe_object_key tokenc_begin_in
  at_key q maybe_object_key position e = (refl, refl)
  at_key q _ position e = (cc, cc)

  -- Behind `[` in an object, `]` is taken where no callback fails, and the parser is then in
  -- MAYBE_OBJECT_KEY inside the object, where the automaton is in MAYBE_OBJECT_COMMA: the comma that
  -- the automaton has an edge for is reported as an error, and a key with no comma before it is
  -- accepted.
  pub empty_array-misleads :
      Obliging client
      → IsParser cfg p
      → p.state ≡ maybe_array_value
      → (rest : List Bracket) → brackets p ≡ square ∷ curly ∷ rest
      → (position : Position)
      → (q : Parser U) × (token cfg client close_bracket position p ≡ ret 0 q)
        × (q.state ≡ maybe_object_key)
        × (brackets q ≡ curly ∷ rest)
        × ((next : Position)
            → (token cfg client comma next q ≡ error client Common.exp_object_key next q)
              × (tokenc_begin cfg client next q ≡ call client string_begin q))
  empty_array-misleads o ok in_state rest top position =
      let m = token_in-empty_array o ok p.state in_state rest top position in
      (
        m.after,
        m.returns,
        m.state_eq,
        m.brackets_eq,
        λ next. at_key m.after m.after.state next m.state_eq,
      )
