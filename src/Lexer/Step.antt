-- ===== src/Lexer/Step.antt =====
-- The body of the loop of `embedjson_lexer_push` of lexer.c: what the iterations share. The
-- children hold one function for each `case` on the lexer's state.
pub mod Lookup
pub mod Text
pub mod Number
pub mod Keyword
use embedjson.Base.{
  ℕ, zero, suc, ◌-◌, Bool, List, Option, none, some, ◌&&◌, leb, ◌==◌, if◌then◌else◌, take, drop,
}
use embedjson.Common.{ErrorCode, Position, at, Outcome, ret, fault}
use embedjson.Lexer.{LexerState, Lexer, Sink}

-- The local variables of the loop besides `data`: the copy of the lexer, and
-- `string_chunk_begin` as an index into the buffer, `none` for the null pointer.
pub record Loop : Type 0 where
  pub lex : Lexer
  pub chunk : Option ℕ

-- How an iteration ends: it goes on to `++data`, it has done `data--` before that, it returns from
-- the function, or its behaviour is undefined.
pub data Turn (S : Type 0) : Type 0 where
  next : Loop → S → Turn S
  back : Loop → S → Turn S
  stop : ℕ → S → Turn S
  crash : Turn S

-- `RETURN_IF`
infixl 5 ◌>>=◌
abbrev pub ◌>>=◌ : {S : Type 0} → Outcome S → (S → Turn S) → Turn S
ret zero s >>= f = f s
ret (suc e) s >>= f = stop (suc e) s
fault >>= f = crash

-- `return embedjson_error_ex(…)`
abbrev pub give_up : {S : Type 0} → Outcome S → Turn S
give_up (ret e s) = stop e s
give_up fault = crash

-- `'0' <= *data && *data <= '9'`; a negative `char` is no digit, and neither is a byte above 127.
abbrev pub is_digit : ℕ → Bool
is_digit c = leb b'0' c && leb c b'9'

abbrev pub with_lexer : Loop → Lexer → Loop
with_lexer v lex = record v { lex = lex }

abbrev pub enter : Loop → LexerState → Loop
enter v state = with_lexer v (record v.lex { state = state })

-- The bytes from index `b` up to index `e`.
abbrev pub slice : List ℕ → ℕ → ℕ → List ℕ
slice buf b e = take (e - b) (drop b buf)

module _ {S D : Type 0} (sink : Sink S D) (buf : List ℕ) where
  -- `if (data != string_chunk_begin) embedjson_tokenc(…)`. With the null pointer the difference of
  -- the pointers is undefined.
  unfoldable pub flush_string : Option ℕ → ℕ → S → Outcome S
  flush_string none i s = fault
  flush_string (some b) i s = if i == b then ret 0 s else sink.tokenc (at b) (slice buf b i) s

  -- The same with `embedjson_tokenbn`.
  unfoldable pub flush_bignum : Option ℕ → ℕ → S → Outcome S
  flush_bignum none i s = fault
  flush_bignum (some b) i s = if i == b then ret 0 s else sink.tokenbn (at b) (slice buf b i) s
