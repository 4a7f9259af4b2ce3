-- ===== src/Parser/Json/Finish.antt =====
-- The parser of parser.c is never stuck: every document that is begun can be completed.
use embedjson.Base.{ℕ, ◌≡◌, refl, sym, ◌∙◌, true, List, [], ◌∷◌, some, length}
use embedjson.Client.{null, Client}
use embedjson.Common.{null_position, ret}
use embedjson.Config.{Config}
use embedjson.Lexer.Double.{Doubles}
use embedjson.Lexer.Push.Written
use embedjson.Lexer.Push.Written.{Call, run_call, run_calls}
use embedjson.Lexer.{close_curly_bracket, close_bracket, colon, null_token}
use embedjson.Parser.Api.{parser_sink}
use embedjson.Parser.Invariant.{Obliging, IsParser, fits, closed_state, bind-of_ret}
use embedjson.Parser.Json.Parts.{behind_text, array_closes, object_closes, text_taken}
use embedjson.Parser.Json.Places.{At, Leaves, behind_value}
use embedjson.Parser.Json.Steps.{key_marked, word_taken}
use embedjson.Parser.Json.Values.{behind_value-closed}
use embedjson.Parser.Json.{told}
use embedjson.Parser.Stack.Laws.{brackets}
use embedjson.Parser.{
  ParserState, expect_value, maybe_object_key, expect_object_key, expect_colon, maybe_object_comma,
  expect_object_value, maybe_array_value, expect_array_value, maybe_array_comma, done, invalid,
  Bracket, curly, square, Parser,
}
use mathlib.Core.Path.{subst}

-- The state behind a value within these brackets.
abbrev behind : List Bracket → ParserState
behind stack = closed_state maybe_object_comma maybe_array_comma stack

module _ {U D : Type 0} (cfg : Config) (fl : Doubles D) (client : Client U D)
    (obliging : Obliging client) (cap : ℕ) where
  -- Some calls of the lexer complete the document.
  abbrev Finishes : Parser U → Type 0
  Finishes p =
      (calls : List Call) × (q : Parser U) × (run_calls fl (parser_sink cfg fl client) calls p
        ≡ ret 0 q)
      × (q.state ≡ done)
      × (brackets q ≡ [])

  one_more :
      (k : Call) {st : ParserState} {stack : List Bracket} {u : U} (p : Parser U)
      → Leaves cfg cap st stack u (run_call fl (parser_sink cfg fl client) k p)
      → ((q : Parser U) → At cfg cap st stack u q → Finishes q)
      → Finishes p
  one_more k p (q, m, a) rest =
      let (calls, q', e, d, b) = rest q a in
      (k ∷ calls, q', bind-of_ret (run_calls fl (parser_sink cfg fl client) calls) m ∙ e, d, b)

  -- Behind a value the brackets are closed one by one.
  unwinds :
      (stack : List Bracket) (u : U) (p : Parser U)
      → At cfg cap (behind stack) stack u p
      → Finishes p
  unwinds [] u p a = ([], p, refl, a.state_eq, a.brackets_eq)
  unwinds (curly ∷ rest) u p a =
      one_more (Written.token close_curly_bracket null_position) p
        (object_closes cfg client obliging null_position rest a) (λ q b. unwinds rest _ q b)
  unwinds (square ∷ rest) u p a =
      one_more (Written.token close_bracket null_position) p
        (array_closes cfg client obliging null_position rest a) (λ q b. unwinds rest _ q b)

  -- Where a value is wanted, `null` will do.
  null-Finishes :
      (st : ParserState) (stack : List Bracket) {next : ParserState} (u : U) (p : Parser U)
      → behind_value st ≡ some next
      → fits st stack ≡ true
      → At cfg cap st stack u p
      → Finishes p
  null-Finishes st stack u p b f a =
      one_more (Written.token null_token null_position) p
        (word_taken cfg client obliging null_position a null_token null refl b)
        (λ q c. unwinds stack _ q (
          subst (λ s. At cfg cap s stack (told client null u) q)
            (sym (behind_value-closed st stack b f)) c))

  colon-Finishes :
      (stack : List Bracket) (u : U) (p : Parser U)
      → fits expect_colon stack ≡ true
      → At cfg cap expect_colon stack u p
      → Finishes p
  colon-Finishes stack u p f a =
      one_more (Written.token colon null_position) p
        (key_marked cfg client obliging null_position a refl)
        (λ q b. null-Finishes expect_object_value stack u q refl f b)

  -- Where a key may come, the empty one.
  key-Finishes :
      (st : ParserState) (stack : List Bracket) (u : U) (p : Parser U)
      → behind_text st ≡ some expect_colon
      → fits expect_colon stack ≡ true
      → At cfg cap st stack u p
      → Finishes p
  key-Finishes st stack u p b f a =
      one_more (Written.string null_position [] null_position null_position) p
        (text_taken cfg fl client obliging a b null_position null_position null_position [])
        (λ q c. colon-Finishes stack _ q f c)

  Finishes-in :
      (st : ParserState) (stack : List Bracket) (u : U) (p : Parser U)
      → fits st stack ≡ true
      → At cfg cap st stack u p
      → Finishes p
  Finishes-in expect_value stack u p f a = null-Finishes expect_value stack u p refl f a
  Finishes-in expect_object_value stack u p f a =
      null-Finishes expect_object_value stack u p refl f a
  Finishes-in maybe_array_value stack u p f a = null-Finishes maybe_array_value stack u p refl f a
  Finishes-in expect_array_value stack u p f a = null-Finishes expect_array_value stack u p refl f a
  Finishes-in maybe_object_key stack u p f a = key-Finishes maybe_object_key stack u p refl f a
  Finishes-in expect_object_key stack u p f a = key-Finishes expect_object_key stack u p refl f a
  Finishes-in expect_colon stack u p f a = colon-Finishes stack u p f a
  Finishes-in maybe_object_comma (curly ∷ rest) u p f a = unwinds (curly ∷ rest) u p a
  Finishes-in maybe_object_comma _ u p f a = absurd (cc f)
  Finishes-in maybe_array_comma (square ∷ rest) u p f a = unwinds (square ∷ rest) u p a
  Finishes-in maybe_array_comma _ u p f a = absurd (cc f)
  Finishes-in done [] u p f a = unwinds [] u p a
  Finishes-in done (b ∷ rest) u p f a = absurd (cc f)
  Finishes-in invalid stack u p f a = absurd (cc f)

-- The parser is never stuck: from every parser that satisfies the invariant, whatever its state and its
-- open brackets, some sequence of calls of the lexer is taken and leads to PARSER_STATE_DONE with no
-- bracket open. No callback fails.
pub document_finishes :
    {U D : Type 0} (cfg : Config) (fl : Doubles D) (client : Client U D)
    → Obliging client
    → (p : Parser U) → IsParser cfg p
    → (calls : List Call) × (q : Parser U) × (run_calls fl (parser_sink cfg fl client) calls p
        ≡ ret 0 q)
      × (q.state ≡ done)
      × (brackets q ≡ [])
document_finishes cfg fl client obliging p h =
    Finishes-in cfg fl client obliging (length p.stack) p.state (brackets p) p.user p h.fit
      (record {
        state_eq = refl;
        brackets_eq = refl;
        user_eq = refl;
        length_eq = refl;
        has_stack = h.has_stack;
      })
