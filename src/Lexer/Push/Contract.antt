-- ===== src/Lexer/Push/Contract.antt =====
-- What `embedjson_lexer_push` of lexer.c owes the handlers that it calls and they owe it: the calls
-- of a string come between its begin and its end, no handler faults, and an error is not 0.
pub mod Turns
pub mod Strings
pub mod Numbers
pub mod Words
pub mod Loop
pub mod Kept
use embedjson.Base.{
  ℕ, zero, suc, ◌+◌, ◌*◌, ◌≤◌, ◌<◌, ◌≡◌, ◌⊎◌, Bool, true, false, List, [], ◌∷◌, Option, none, some,
  ◌&&◌, leb, if◌then◌else◌,
}
use embedjson.Base.Ints.{ℤ}
use embedjson.Common.{ErrorCode, Position, Outcome, ret, fault}
use embedjson.Config.{Config, int_max}
use embedjson.Lexer.Step.{is_digit}
use embedjson.Lexer.{
  LexerState, lookup_token, in_string, in_string_escape, in_string_unicode_escape, in_number_sign,
  in_number, in_number_frac, in_number_exp_sign, in_number_exp, in_big_number, in_true, in_false,
  in_null, Lexer, Token, Sink,
}

-- No fault, and `Q` holds where the status is 0.
abbrev pub Within : {A : Type 0} → (A → Type 0) → Outcome A → Type 0
Within Q (ret zero a) = Q a
Within Q (ret (suc e) a) = Unit
Within Q fault = ⊥

-- A status that is not 0.
abbrev pub Fails : {A : Type 0} → Outcome A → Type 0
Fails (ret (suc e) a) = Unit
Fails _ = ⊥

-- What the lexer may rely on, where `Idle` holds of a sink between two tokens and `Open` of one
-- inside a string.
pub record Contract {S D : Type 0} (sink : Sink S D) (Idle Open : S → Type 0) : Type 0 where
  pub token_kept : (t : Token) (p : Position) (s : S) → Idle s → Within Idle (sink.token t p s)
  pub tokeni_kept : (n : ℤ) (p : Position) (s : S) → Idle s → Within Idle (sink.tokeni n p s)
  pub tokenf_kept : (x : D) (p : Position) (s : S) → Idle s → Within Idle (sink.tokenf x p s)
  pub begin_kept : (p : Position) (s : S) → Idle s → Within Open (sink.tokenc_begin p s)
  pub chunk_kept :
      (p : Position) (chunk : List ℕ) (s : S) → Open s → Within Open (sink.tokenc p chunk s)
  pub end_kept : (p : Position) (s : S) → Open s → Within Idle (sink.tokenc_end p s)
  pub error_fails : (code : ErrorCode) (p : Position) (s : S) → Fails (sink.error_ex code p s)

-- The number of digits up to a byte and with it.
abbrev pub run : ℕ → ℕ → ℕ
run r c = if is_digit c then suc r else 0

unfoldable pub run_after : ℕ → List ℕ → ℕ
run_after r [] = r
run_after r (c ∷ cs) = run_after (run r c) cs

-- No run of digits is longer than `limit`.
unfoldable pub runs_within : ℕ → ℕ → List ℕ → Bool
runs_within limit r [] = leb r limit
runs_within limit r (c ∷ cs) = leb r limit && runs_within limit (run r c) cs

-- 10 ^ n
abbrev pub tens : ℕ → ℕ
tens zero = 1
tens (suc n) = 10 * tens n

-- How long runs of digits may be: up to 323, the exponent at which the table of `powm10` ends, and,
-- where overflow is undefined, so short that `10 * int_value + *data` stays within EMBEDJSON_INT_MAX.
-- By default that is 18.
pub record IsLimit (cfg : Config) (limit : ℕ) : Type 0 where
  pub table : limit ≤ 323
  pub sum : (cfg.int_signed ≡ false) ⊎ (cfg.int_bits < 32) ⊎ (tens limit + 47 ≤ int_max cfg)

-- What the lexer may have in `int_value` behind a run of `r` digits.
abbrev pub ValueFits : ℕ → LexerState → ℕ → Type 0
ValueFits r in_number n = n < tens r
ValueFits r in_number_frac n = Unit
ValueFits r in_number_exp_sign n = Unit
ValueFits r in_number_exp n = Unit
ValueFits r in_big_number n = Unit
ValueFits r _ n = n ≡ 0

-- How many digits of a fraction the lexer may have counted behind a run of `r` digits.
abbrev pub frac_bound : ℕ → LexerState → ℕ
frac_bound r in_number_frac = r
frac_bound r in_number_exp_sign = 323
frac_bound r in_number_exp = 323
frac_bound r _ = 0

abbrev pub exp_bound : Bool → ℕ
exp_bound exp_minus = if exp_minus then 323 else 308

-- How much of a keyword has been read.
abbrev pub WordFits : LexerState → ℕ → Type 0
WordFits in_true offset = offset < 4
WordFits in_false offset = offset < 5
WordFits in_null offset = offset < 4
WordFits _ offset = Unit

module _ {S : Type 0} (Idle Open : S → Type 0) where
  -- Inside a string the sink is `Open`. Without EMBEDJSON_BIGNUM there are no big numbers.
  abbrev pub Held : LexerState → S → Type 0
  Held in_string s = Open s
  Held in_string_escape s = Open s
  Held in_string_unicode_escape s = Open s
  Held in_big_number s = ⊥
  Held _ s = Idle s

  -- The lexer between two bytes, behind `r` digits, with its sink.
  pub record Ready (r : ℕ) (lex : Lexer) (s : S) : Type 0 where
    pub frac_le : lex.frac_power ≤ frac_bound r lex.state
    pub exp_le : lex.exp_value ≤ exp_bound lex.exp_minus
    pub value_fits : ValueFits r lex.state lex.int_value
    pub word_fits : WordFits lex.state lex.offset
    pub held : Held lex.state s
