-- ===== src/Parser.antt =====
-- parser.h and the types of parser.c: the state of the syntax parser.
pub mod Stack
pub mod Handlers
pub mod Api
pub mod Automaton
pub mod Invariant
pub mod Moves
pub mod Follows
pub mod Values
pub mod Bignum
pub mod EmptyArray
pub mod Debug
pub mod Json
pub mod Safety
use embedjson.Base.{ℕ, List, if◌then◌else◌}
use embedjson.Client.{Event, Client}
use embedjson.Common.{ErrorCode, Position, Outcome, ret}

-- `embedjson_parser_state`
pub data ParserState : Type 0 where
  expect_value maybe_object_key expect_object_key expect_colon : ParserState
  maybe_object_comma expect_object_value maybe_array_value expect_array_value : ParserState
  maybe_array_comma done invalid : ParserState

-- `embedjson_parser_stack_value`
pub data Bracket : Type 0 where
  curly square : Bracket

-- `embedjson_parser` without its lexer, which only lexer.c touches. `user` is all that the
-- callbacks can reach: `userdata` and the user's globals. `stack_capacity` is used by the dynamic
-- stack only.
pub record Parser (U : Type 0) : Type 0 where
  pub state : ParserState
  pub stack_size : ℕ
  pub stack : List ℕ
  pub stack_capacity : ℕ
  pub user : U

-- Calls of the user's functions: the parser changes in `user` only.
module _ {U D : Type 0} (client : Client U D) where
  abbrev pub call : Event D → Parser U → Outcome (Parser U)
  call e p = let (code, u) = client.event e p.user in ret code (record p { user = u })

  abbrev pub error : ErrorCode → Position → Parser U → Outcome (Parser U)
  error code position p =
      let (status, u) = client.error_ex code position p.user in ret status (record p { user = u })
