-- ===== src/Parser/Bignum.antt =====
-- Big numbers in parser.c: `embedjson_tokenbn_begin` has entered the state behind the number
-- already when `embedjson_tokenbn_end` looks its next state up.
use embedjson.Base.{◌≡◌, true, false, List, some, arith}
use embedjson.Base.Ints.{ℤ}
use embedjson.Client.{Client, bignum_begin, bignum_end}
use embedjson.Common
use embedjson.Common.{ErrorCode, Position}
use embedjson.Config.{Config}
use embedjson.Parser.Automaton.{fsm, primitive}
use embedjson.Parser.Handlers.Scalars.{tokenbn_begin_in, tokenbn_begin, tokenbn_end, check_state}
use embedjson.Parser.Stack.Laws.{brackets}
use embedjson.Parser.{ParserState, Bracket, Parser, invalid, call, error}

module _ {U D : Type 0} (cfg : Config) (client : Client U D) (p : Parser U) where
  bignum_in-invalid :
      (st : ParserState) {st' : ParserState} {stack' : List Bracket}
      → fsm st (brackets p) primitive ≡ some (st', stack')
      → (before after : Position) (n : ℤ) (u : U)
      → (tokenbn_begin_in cfg client st before n p
          ≡ call client (bignum_begin n) (record p { state = st' }))
        × (cfg.debug ≡ false
            → tokenbn_end cfg client after (record p { state = st'; user = u })
              ≡ call client bignum_end (record p { state = invalid; user = u }))
        × (cfg.debug ≡ true
            → tokenbn_end cfg client after (record p { state = st'; user = u })
              ≡ error client Common.internal_error after (record p { state = invalid; user = u }))
  unfolding fsm tokenbn_begin_in tokenbn_end check_state
  bignum_in-invalid st e before after n u = (ground arith, λ d. ground arith, λ d. ground arith)

  -- Wherever the automaton has an edge for a number, `embedjson_tokenbn_begin` enters the state that
  -- the edge leads to, and from that state `embedjson_tokenbn_end` always enters
  -- PARSER_STATE_INVALID: without EMBEDJSON_DEBUG it then tells the user that the number has ended,
  -- with it an internal error is reported.
  pub bignum-invalid :
      {st' : ParserState} {stack' : List Bracket}
      → fsm p.state (brackets p) primitive ≡ some (st', stack')
      → (before after : Position) (n : ℤ) (u : U)
      → (tokenbn_begin cfg client before n p
          ≡ call client (bignum_begin n) (record p { state = st' }))
        × (cfg.debug ≡ false
            → tokenbn_end cfg client after (record p { state = st'; user = u })
              ≡ call client bignum_end (record p { state = invalid; user = u }))
        × (cfg.debug ≡ true
            → tokenbn_end cfg client after (record p { state = st'; user = u })
              ≡ error client Common.internal_error after (record p { state = invalid; user = u }))
  bignum-invalid e = bignum_in-invalid p.state e
