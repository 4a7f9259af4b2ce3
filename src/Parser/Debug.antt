-- ===== src/Parser/Debug.antt =====
-- The self-checks of parser.c under EMBEDJSON_DEBUG.
use embedjson.Base.{ℕ, ◌≡◌, refl, ◌∙◌, Bool, true, false, List, some, [], ◌∷◌, arith}
use embedjson.Client.{Client}
use embedjson.Common.{Position}
use embedjson.Config.{Config}
use embedjson.Lexer.{Token}
use embedjson.Parser.Handlers.{
  token_in, token, token_expect_value, token_maybe_object_key, token_expect_colon,
  token_maybe_object_comma, token_expect_object_value, token_maybe_array_value,
  token_expect_array_value, token_maybe_array_comma, open_object, open_array, check_top,
  close_object, close_array,
}
use embedjson.Base.Ints.{ℤ}
use embedjson.Parser.Automaton.{fsm, string}
use embedjson.Parser.Handlers.Scalars.{tokeni, tokenf, tokeni_in, tokenf_in, check_state}
use embedjson.Parser.Handlers.Strings.{tokenc, tokenc_begin, tokenc_begin_in, tokenc_end}
use embedjson.Parser.Invariant.{IsParser, fits, within_object, within_array}
use embedjson.Parser.Moves.{check_top-eq}
use embedjson.Parser.Stack.{stack_push, stack_full}
use embedjson.Parser.Stack.Laws.{HasStack, brackets}
use embedjson.Parser.{
  ParserState, expect_value, maybe_object_key, maybe_object_comma, maybe_array_value,
  maybe_array_comma, invalid, Bracket, curly, square, Parser,
}

abbrev pub with_debug : Config → Bool → Config
with_debug cfg b = record cfg { debug = b }

within_object-cons :
    (stack : List Bracket)
    → within_object stack ≡ true
    → (rest : List Bracket) × (stack ≡ curly ∷ rest)
within_object-cons (curly ∷ rest) h = (rest, refl)
within_object-cons (square ∷ rest) h = cc
within_object-cons [] h = cc

within_array-cons :
    (stack : List Bracket)
    → within_array stack ≡ true
    → (rest : List Bracket) × (stack ≡ square ∷ rest)
within_array-cons (square ∷ rest) h = (rest, refl)
within_array-cons (curly ∷ rest) h = cc
within_array-cons [] h = cc

module _ {U D : Type 0} (cfg : Config) (client : Client U D) (p : Parser U) (ok : HasStack cfg p)
    (b : Bool) (position : Position) where
  HasStack-debug : HasStack (with_debug cfg b) p
  HasStack-debug = record {
    capacity_eq = ok.capacity_eq;
    small = ok.small;
    size_le = ok.size_le;
    bytes = ok.bytes;
  }

  -- The parts of a closing bracket with the self-check off or on.
  close_object-debug :
      within_object (brackets p) ≡ true
      → close_object (with_debug cfg b) client position p
        ≡ close_object (with_debug cfg false) client position p
  unfolding close_object check_top
  close_object-debug h =
      let (rest, top) = within_object-cons (brackets p) h in
      check_top-eq (with_debug cfg b) client curly position p _ HasStack-debug rest top ∙ refl

  close_array-debug :
      (in_object : ParserState)
      → within_array (brackets p) ≡ true
      → close_array (with_debug cfg b) client in_object position p
        ≡ close_array (with_debug cfg false) client in_object position p
  unfolding close_array check_top
  close_array-debug in_object h =
      let (rest, top) = within_array-cons (brackets p) h in
      check_top-eq (with_debug cfg b) client square position p _ HasStack-debug rest top ∙ refl

  token_in-debug :
      (st : ParserState) (t : Token)
      → fits st (brackets p) ≡ true
      → token_in (with_debug cfg b) client st t position p
        ≡ token_in (with_debug cfg false) client st t position p
  unfolding token_in token_expect_value token_maybe_object_key token_expect_colon
      token_maybe_object_comma token_expect_object_value token_maybe_array_value
      token_expect_array_value token_maybe_array_comma open_object open_array stack_push stack_full
  token_in-debug expect_value t f = ground arith
  token_in-debug maybe_object_key t f = ground (arith, close_object-debug f)
  token_in-debug maybe_object_comma t f = ground (arith, close_object-debug f)
  token_in-debug maybe_array_value t f = ground (arith, close_array-debug maybe_object_key f)
  token_in-debug maybe_array_comma t f = ground (arith, close_array-debug maybe_object_comma f)
  token_in-debug invalid t f = cc
  token_in-debug _ t f = ground arith

  values_in-debug :
      (st : ParserState) (n : ℤ) (x : D)
      → fits st (brackets p) ≡ true
      → (tokeni_in (with_debug cfg b) client st n position p
          ≡ tokeni_in (with_debug cfg false) client st n position p)
        × (tokenf_in (with_debug cfg b) client st x position p
            ≡ tokenf_in (with_debug cfg false) client st x position p)
        × (tokenc_begin_in (with_debug cfg b) client st position p
            ≡ tokenc_begin_in (with_debug cfg false) client st position p)
  unfolding tokeni_in tokenf_in tokenc_begin_in
  values_in-debug st n x f = ground arith

  tokenc-debug :
      (st : ParserState) (chunk : List ℕ)
      → p.state ≡ st
      → fits st (brackets p) ≡ true
      → tokenc (with_debug cfg b) client position chunk p
        ≡ tokenc (with_debug cfg false) client position chunk p
  unfolding tokenc check_state
  tokenc-debug st chunk e f = ground arith

  tokenc_end-debug :
      (st st' : ParserState) (stack' : List Bracket)
      → p.state ≡ st
      → fsm st (brackets p) string ≡ some (st', stack')
      → tokenc_end (with_debug cfg b) client position p
        ≡ tokenc_end (with_debug cfg false) client position p
  unfolding tokenc_end check_state fsm
  tokenc_end-debug st st' stack' in_state e = ground arith

module _ {U D : Type 0} (cfg : Config) (client : Client U D) (p : Parser U) where
  -- On a parser that satisfies the invariant the self-checks of EMBEDJSON_DEBUG never fire: with
  -- them on or off, the handlers of plain tokens, numbers, string chunks and string beginnings do the
  -- same, and so does the end of a string where the automaton has an edge for a string.
  pub debug_silent :
      IsParser cfg p
      → (b : Bool) (position : Position) (t : Token) (n : ℤ) (x : D) (chunk : List ℕ)
      → (token (with_debug cfg b) client t position p
          ≡ token (with_debug cfg false) client t position p)
        × (tokeni (with_debug cfg b) client n position p
            ≡ tokeni (with_debug cfg false) client n position p)
        × (tokenf (with_debug cfg b) client x position p
            ≡ tokenf (with_debug cfg false) client x position p)
        × (tokenc_begin (with_debug cfg b) client position p
            ≡ tokenc_begin (with_debug cfg false) client position p)
        × (tokenc (with_debug cfg b) client position chunk p
            ≡ tokenc (with_debug cfg false) client position chunk p)
        × ((st' : ParserState) (stack' : List Bracket)
            → fsm p.state (brackets p) string ≡ some (st', stack')
            → tokenc_end (with_debug cfg b) client position p
              ≡ tokenc_end (with_debug cfg false) client position p)
  debug_silent ok b position t n x chunk =
      let values = values_in-debug cfg client p ok.has_stack b position p.state n x ok.fit in
      (
        token_in-debug cfg client p ok.has_stack b position p.state t ok.fit,
        values.0,
        values.1,
        values.2,
        tokenc-debug cfg client p ok.has_stack b position p.state chunk refl ok.fit,
        λ st' stack' e.
            tokenc_end-debug cfg client p ok.has_stack b position p.state st' stack' refl e,
      )
