-- ===== src/Lexer.antt =====
-- lexer.h and the types of lexer.c: the state of the lexer, its tokens, and the handlers that it
-- calls.
pub mod Encoding
pub mod Utf8
pub mod Double
pub mod Step
pub mod Push
use embedjson.Base.{ℕ, Bool, false, List, [], ◌∷◌}
use embedjson.Base.Ints.{ℤ}
use embedjson.Common.{ErrorCode, Position, Outcome}

-- `lexer_state`
pub data LexerState : Type 0 where
  lookup_token in_string in_string_escape in_string_unicode_escape in_number_sign : LexerState
  in_number in_number_frac in_number_exp_sign in_number_exp in_big_number : LexerState
  in_true in_false in_null : LexerState

-- `embedjson_encoding`
pub data TextEncoding : Type 0 where
  unknown utf8 utf16le utf16be utf32le utf32be : TextEncoding

-- `embedjson_tok`
pub data Token : Type 0 where
  open_curly_bracket close_curly_bracket open_bracket close_bracket comma colon : Token
  true_token false_token null_token : Token

-- `embedjson_lexer`. A byte is a number below 256. `int_value` is never negative, since the sign
-- is kept apart until the value is handed on.
pub record Lexer : Type 0 where
  pub state : LexerState
  pub offset : ℕ
  pub unicode_hi : ℕ
  pub unicode_lo : ℕ
  pub encoding : TextEncoding
  pub magic_bytes_read : ℕ
  pub minus : Bool
  pub exp_minus : Bool
  pub exp_not_empty : Bool
  pub magic : List ℕ
  pub int_value : ℕ
  pub frac_value : ℕ
  pub frac_power : ℕ
  pub exp_value : ℕ
  pub nb : ℕ
  pub cc : ℕ

-- The lexer after `memset(&parser, 0, sizeof(parser))`.
abbrev pub initial_lexer : Lexer
initial_lexer = record {
  state = lookup_token;
  offset = 0;
  unicode_hi = 0;
  unicode_lo = 0;
  encoding = unknown;
  magic_bytes_read = 0;
  minus = false;
  exp_minus = false;
  exp_not_empty = false;
  magic = 0 ∷ 0 ∷ 0 ∷ 0 ∷ [];
  int_value = 0;
  frac_value = 0;
  frac_power = 0;
  exp_value = 0;
  nb = 0;
  cc = 0;
}

-- The interface between the lexer and whoever takes its tokens, over that one's state `S`:
-- parser.c in the library, a recorder in the unit tests. A chunk comes with the place of its first
-- byte.
pub record Sink (S D : Type 0) : Type 0 where
  pub token : Token → Position → S → Outcome S
  pub tokenc : Position → List ℕ → S → Outcome S
  pub tokeni : ℤ → Position → S → Outcome S
  pub tokenf : D → Position → S → Outcome S
  pub tokenc_begin : Position → S → Outcome S
  pub tokenc_end : Position → S → Outcome S
  pub tokenbn_begin : Position → ℤ → S → Outcome S
  pub tokenbn : Position → List ℕ → S → Outcome S
  pub tokenbn_end : Position → S → Outcome S
  pub error_ex : ErrorCode → Position → S → Outcome S
