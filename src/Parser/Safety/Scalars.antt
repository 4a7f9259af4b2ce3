-- ===== src/Parser/Safety/Scalars.antt =====
-- The handlers of strings and numbers of parser.c keep the parser's invariant.
use embedjson.Base.{◌≡◌, refl, true, false, ap, List, some, ℕ, arith}
use embedjson.Base.Ints.{ℤ}
use embedjson.Client.{Event, int, double, string_begin, string_chunk, string_end, Client}
use embedjson.Common.{Position, Outcome}
use embedjson.Config.{Config}
use embedjson.Lexer.Push.Contract.Turns.{if_split}
use embedjson.Lexer.Push.Contract.{Within}
use embedjson.Parser.Handlers.Scalars.{
  check_state, is_invalid, tokeni, tokeni_in, tokenf, tokenf_in,
}
use embedjson.Parser.Handlers.Strings.{
  tokenc, tokenc_begin, tokenc_begin_in, tokenc_end, next_after_string,
}
use embedjson.Parser.Invariant.{IsParser, fits, HasStack-state, HasStack-user}
use embedjson.Parser.Json.Parts.{behind_text}
use embedjson.Parser.Safety.{Strict, error-Within, call-Within}
use embedjson.Parser.Stack.Laws.{HasStack, brackets}
use embedjson.Parser.{
  ParserState, expect_value, maybe_object_key, expect_object_key, expect_colon, maybe_object_comma,
  expect_object_value, maybe_array_value, expect_array_value, maybe_array_comma, done, invalid,
  Bracket, Parser, call,
}

-- A parser inside a string: it satisfies the invariant, in a state that takes a string.
pub record InText {U : Type 0} (cfg : Config) (p : Parser U) : Type 0 where
  pub is_parser : IsParser cfg p
  pub next : ParserState
  pub takes : behind_text p.state ≡ some next

fits-valid :
    (st : ParserState) (stack : List Bracket) → fits st stack ≡ true → is_invalid st ≡ false
fits-valid st stack h = ground arith

behind_text-fits :
    (st next : ParserState) (stack : List Bracket)
    → behind_text st ≡ some next
    → fits st stack ≡ true
    → fits next stack ≡ true
behind_text-fits st next stack b f = ground arith

behind_text-next :
    (st next : ParserState) → behind_text st ≡ some next → next_after_string st ≡ some next
behind_text-next st next b = ground arith

module _ {U D : Type 0} (cfg : Config) (client : Client U D) (strict : Strict client) where
  check_state-Within :
      (Q : Parser U → Type 0) (position : Position) (p : Parser U) (m : Outcome (Parser U))
      → is_invalid p.state ≡ false
      → Within Q m
      → Within Q (check_state cfg client position p m)
  unfolding check_state
  check_state-Within Q position p m v h =
      if_split (Within Q) cfg.debug _ _
        (λ debug. if_split (Within Q) (is_invalid p.state) _ _ (λ i. absurd (cc)) (λ i. h))
        (λ quiet. h)

  -- A state entered and the callback behind it.
  entered-Within :
      (e : Event D) (st : ParserState) (p : Parser U)
      → HasStack cfg p
      → fits st (brackets p) ≡ true
      → Within (IsParser cfg) (call client e (record p { state = st }))
  entered-Within e st p ok f =
      call-Within client (IsParser cfg) e (record p { state = st })
        (λ u. record { has_stack = HasStack-user _ (HasStack-state p ok st) u; fit = f })

  module _ (position : Position) (p : Parser U) (ok : HasStack cfg p) where
    tokeni_in-Within :
        (st : ParserState) (n : ℤ)
        → fits st (brackets p) ≡ true
        → Within (IsParser cfg) (tokeni_in cfg client st n position p)
    unfolding tokeni_in
    tokeni_in-Within expect_value n f = entered-Within (int n) done p ok f
    tokeni_in-Within expect_object_value n f = entered-Within (int n) maybe_object_comma p ok f
    tokeni_in-Within maybe_array_value n f = entered-Within (int n) maybe_array_comma p ok f
    tokeni_in-Within expect_array_value n f = entered-Within (int n) maybe_array_comma p ok f
    tokeni_in-Within invalid n f = absurd (cc f)
    tokeni_in-Within _ n f = error-Within client strict _ position p (IsParser cfg)

    tokenf_in-Within :
        (st : ParserState) (x : D)
        → fits st (brackets p) ≡ true
        → Within (IsParser cfg) (tokenf_in cfg client st x position p)
    unfolding tokenf_in
    tokenf_in-Within expect_value x f = entered-Within (double x) done p ok f
    tokenf_in-Within expect_object_value x f = entered-Within (double x) maybe_object_comma p ok f
    tokenf_in-Within maybe_array_value x f = entered-Within (double x) maybe_array_comma p ok f
    tokenf_in-Within expect_array_value x f = entered-Within (double x) maybe_array_comma p ok f
    tokenf_in-Within invalid x f = absurd (cc f)
    tokenf_in-Within _ x f = error-Within client strict _ position p (IsParser cfg)

    begun-Within :
        (next : ParserState)
        → IsParser cfg p
        → behind_text p.state ≡ some next
        → Within (InText cfg) (call client string_begin p)
    begun-Within next h b = call-Within client (InText cfg) string_begin p (λ u. record {
      is_parser = record { has_stack = HasStack-user p ok u; fit = h.fit };
      next = next;
      takes = b;
    })

    tokenc_begin_in-Within :
        (st : ParserState)
        → p.state ≡ st
        → IsParser cfg p
        → fits st (brackets p) ≡ true
        → Within (InText cfg) (tokenc_begin_in cfg client st position p)
    unfolding tokenc_begin_in
    tokenc_begin_in-Within expect_value e h f = begun-Within done h (ap behind_text e)
    tokenc_begin_in-Within maybe_object_key e h f = begun-Within expect_colon h (ap behind_text e)
    tokenc_begin_in-Within expect_object_key e h f = begun-Within expect_colon h (ap behind_text e)
    tokenc_begin_in-Within expect_object_value e h f =
        begun-Within maybe_object_comma h (ap behind_text e)
    tokenc_begin_in-Within maybe_array_value e h f =
        begun-Within maybe_array_comma h (ap behind_text e)
    tokenc_begin_in-Within expect_array_value e h f =
        begun-Within maybe_array_comma h (ap behind_text e)
    tokenc_begin_in-Within invalid e h f = absurd (cc f)
    tokenc_begin_in-Within _ e h f = error-Within client strict _ position p (InText cfg)

  pub tokeni-Within :
      (n : ℤ) (position : Position) (p : Parser U)
      → IsParser cfg p
      → Within (IsParser cfg) (tokeni cfg client n position p)
  tokeni-Within n position p h = tokeni_in-Within position p h.has_stack p.state n h.fit

  pub tokenf-Within :
      (x : D) (position : Position) (p : Parser U)
      → IsParser cfg p
      → Within (IsParser cfg) (tokenf cfg client x position p)
  tokenf-Within x position p h = tokenf_in-Within position p h.has_stack p.state x h.fit

  pub tokenc_begin-Within :
      (position : Position) (p : Parser U)
      → IsParser cfg p
      → Within (InText cfg) (tokenc_begin cfg client position p)
  tokenc_begin-Within position p h =
      tokenc_begin_in-Within position p h.has_stack p.state refl h h.fit

  pub tokenc-Within :
      (position : Position) (chunk : List ℕ) (p : Parser U)
      → InText cfg p
      → Within (InText cfg) (tokenc cfg client position chunk p)
  unfolding tokenc
  tokenc-Within position chunk p h =
      check_state-Within (InText cfg) position p _ (fits-valid p.state _ h.is_parser.fit) (
        call-Within client (InText cfg) (string_chunk chunk) p (λ u. record {
          is_parser = record {
            has_stack = HasStack-user p h.is_parser.has_stack u;
            fit = h.is_parser.fit;
          };
          next = h.next;
          takes = h.takes;
        }))

  pub tokenc_end-Within :
      (position : Position) (p : Parser U)
      → InText cfg p
      → Within (IsParser cfg) (tokenc_end cfg client position p)
  unfolding tokenc_end
  tokenc_end-Within position p h =
      let f = behind_text-fits p.state h.next (brackets p) h.takes h.is_parser.fit in
      check_state-Within (IsParser cfg) position p _ (fits-valid p.state _ h.is_parser.fit) (
        rw (behind_text-next p.state h.next h.takes) (
          check_state-Within (IsParser cfg) position _ _ (fits-valid h.next _ f)
            (entered-Within string_end h.next p h.is_parser.has_stack f)))
