-- ===== src/UnitTests/LexerTests.antt =====
-- The harness of ut_lexer.c: the handlers, which compare each token with a table.
pub mod Structure
pub mod Strings
pub mod Utf8
pub mod Suite
pub mod Escapes
pub mod Exponents
pub mod Run
use Prim.Native.String.{String}
use embedjson.Base.Bytes.{same_bytes}
use embedjson.Base.Ints.{ℤ, pos, negsuc}
use embedjson.Base.{
  ℕ, ◌==◌, ◌&&◌, ◌||◌, Bool, true, false, List, [], ◌∷◌, take, drop, if◌then◌else◌,
}
use embedjson.Common.{ErrorCode, Position, Outcome, ret, error_ex}
use embedjson.Lexer.{
  Token, open_curly_bracket, close_curly_bracket, open_bracket, close_bracket, comma, colon,
  true_token, false_token, null_token, Sink,
}

-- The `type` of a `token_info`: one of `embedjson_tok` or of `additional_token_type`.
pub data TokenType : Type 0 where
  lexer_token : Token → TokenType
  token_number token_string_begin token_string_chunk token_string_end : TokenType
  token_bignum_begin token_bignum_chunk token_bignum_end token_error : TokenType

-- `value_type` and `value`
pub data TokenValue (D : Type 0) : Type 0 where
  integer : ℤ → TokenValue D
  fp : D → TokenValue D
  str : List ℕ → TokenValue D

pub record TokenInfo (D : Type 0) : Type 0 where
  pub type : TokenType
  pub value : TokenValue D

-- What C leaves in the members that an initializer does not name.
abbrev pub plain : {D : Type 0} → TokenType → TokenInfo D
plain type = record { type = type; value = integer (pos 0) }

abbrev pub valued : {D : Type 0} → TokenType → TokenValue D → TokenInfo D
valued type value = record { type = type; value = value }

-- `test_case`; a chunk is its bytes.
pub record TestCase (D : Type 0) : Type 0 where
  pub name : String
  pub data_chunks : List (List ℕ)
  pub tokens : List (TokenInfo D)

-- `{.data = json + begin, .size = size}`
abbrev pub chunk : List ℕ → ℕ → ℕ → List ℕ
chunk json begin size = take size (drop begin json)

-- The number of a token, in the order of the enumerations.
abbrev pub token_number_of : Token → ℕ
token_number_of open_curly_bracket = 0
token_number_of close_curly_bracket = 1
token_number_of open_bracket = 2
token_number_of close_bracket = 3
token_number_of comma = 4
token_number_of colon = 5
token_number_of true_token = 6
token_number_of false_token = 7
token_number_of null_token = 8

abbrev pub type_number : TokenType → ℕ
type_number (lexer_token t) = token_number_of t
type_number token_number = 9
type_number token_string_begin = 10
type_number token_string_chunk = 11
type_number token_string_end = 12
type_number token_bignum_begin = 13
type_number token_bignum_chunk = 14
type_number token_bignum_end = 15
type_number token_error = 16

-- The types whose value is compared.
abbrev pub has_value : TokenType → Bool
has_value token_number = true
has_value token_string_chunk = true
has_value token_bignum_begin = true
has_value token_bignum_chunk = true
has_value _ = false

abbrev pub same_integer : ℤ → ℤ → Bool
same_integer (pos m) (pos n) = m == n
same_integer (negsuc m) (negsuc n) = m == n
same_integer _ _ = false

-- What `itoken` points at: the tokens that are still expected. `exited` is set by `exit(1)` in `fail`.
pub record Progress (D : Type 0) : Type 0 where
  pub expected : List (TokenInfo D)
  pub exited : Bool

-- `==` of C on doubles is a parameter.
module _ {D : Type 0} (same_double : D → D → Bool) where
  -- The comparison of the value types and of the values.
  unfoldable pub same_value : TokenValue D → TokenValue D → Bool
  same_value (integer m) (integer n) = same_integer m n
  same_value (fp x) (fp y) = same_double x y
  same_value (str xs) (str ys) = same_bytes xs ys
  same_value _ _ = false

  abbrev pub same_token : TokenInfo D → TokenInfo D → Bool
  same_token ti itoken =
      if type_number ti.type == type_number itoken.type
      then if has_value ti.type then same_value ti.value itoken.value else true
      else false

  -- `on_token`, by what `itoken` points at. The status of `exit(1)` stands for the end of the program.
  unfoldable pub compared : TokenInfo D → Progress D → List (TokenInfo D) → ℕ × Progress D
  compared ti u [] = (1, record u { exited = true })
  compared ti u (itoken ∷ more) =
      if same_token ti itoken
      then (0, record u { expected = more })
      else (1, record u { exited = true })

  abbrev pub on_token : TokenInfo D → Progress D → ℕ × Progress D
  on_token ti u = compared ti u u.expected

  -- A handler with the status of `on_token`.
  abbrev pub answered : ℕ × Progress D → Outcome (Progress D)
  answered (status, u) = ret status u

  -- `embedjson_error`, whose value is not compared.
  abbrev pub test_error : Position → Progress D → ℕ × Progress D
  test_error position u = on_token (valued token_error (str [])) u

  abbrev pub test_sink : Sink (Progress D) D
  test_sink = record {
    token = λ t position u. answered (on_token (plain (lexer_token t)) u);
    tokenc = λ position chunk u. answered (on_token (valued token_string_chunk (str chunk)) u);
    tokeni = λ value position u. answered (on_token (valued token_number (integer value)) u);
    tokenf = λ value position u. answered (on_token (valued token_number (fp value)) u);
    tokenc_begin = λ position u. answered (on_token (plain token_string_begin) u);
    tokenc_end = λ position u. answered (on_token (plain token_string_end) u);
    tokenbn_begin =
        λ position value u. answered (on_token (valued token_bignum_begin (integer value)) u);
    tokenbn = λ position chunk u. answered (on_token (valued token_bignum_chunk (str chunk)) u);
    tokenbn_end = λ position u. answered (on_token (plain token_bignum_end) u);
    error_ex = λ code position u. answered (error_ex test_error code position u);
  }
