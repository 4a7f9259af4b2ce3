-- ===== src/Lexer/Push.antt =====
-- `embedjson_lexer_push` and `embedjson_lexer_finalize` of lexer.c.
pub mod Termination
pub mod Steps
pub mod Lexemes
pub mod Words
pub mod Written
pub mod Runs
pub mod Reads
pub mod Contract
use embedjson.Base.{
  ℕ, zero, suc, ◌+◌, Bool, true, false, List, [], ◌∷◌, Option, none, some, length, ◌&&◌, ◌||◌,
  if◌then◌else◌,
}
use embedjson.Common
use embedjson.Common.{ErrorCode, null_position, Outcome, ret, fault}
use embedjson.Config.{Config}
use embedjson.Lexer.Double.{Doubles, final_fraction, scale, signed}
use embedjson.Lexer.Encoding.{sniff}
use embedjson.Lexer.Step.Keyword.{keyword_true, keyword_false, keyword_null}
use embedjson.Lexer.Step.Lookup.{lookup}
use embedjson.Lexer.Step.Number.{
  signed_int, number_sign, number, number_frac, number_exp_sign, number_exp, big_number,
}
use embedjson.Lexer.Step.Text.{string, string_escape, string_unicode_escape}
use embedjson.Lexer.Step.{
  Loop, Turn, next, back, stop, crash, with_lexer, flush_string, flush_bignum,
}
use embedjson.Lexer.{
  LexerState, lookup_token, in_string, in_string_escape, in_string_unicode_escape, in_number_sign,
  in_number, in_number_frac, in_number_exp_sign, in_number_exp, in_big_number, in_true, in_false,
  in_null, Lexer, Sink,
}

abbrev pub is_in_string : LexerState → Bool
is_in_string in_string = true
is_in_string _ = false

abbrev pub is_in_big_number : LexerState → Bool
is_in_big_number in_big_number = true
is_in_big_number _ = false

-- `data--` and `++data`: the iteration is followed by another on the same byte.
abbrev pub repeated : {S : Type 0} → Turn S → (Loop → S → Option (Turn S)) → Option (Turn S)
repeated (next v s) again = some (next v s)
repeated (back v s) again = again v s
repeated (stop code s) again = some (stop code s)
repeated crash again = some crash

-- `++data`: the iterations on a byte are followed by those on the rest of the buffer.
abbrev pub advanced :
    {S : Type 0} → Option (Turn S) → (Loop → S → Option (Turn S)) → Option (Turn S)
advanced none rest = none
advanced (some (next v s)) rest = rest v s
advanced (some (back v s)) rest = none
advanced (some (stop code s)) rest = some (stop code s)
advanced (some crash) rest = some crash

-- The local variables at the head of the function.
abbrev pub start : Config → Lexer → Loop
start cfg lex = record {
  lex = lex;
  chunk =
      if is_in_string lex.state || (cfg.bignum && is_in_big_number lex.state) then some 0 else none;
}

-- The lexer behind the last `RETURN_IF`.
abbrev pub with_status : {S : Type 0} → Lexer → Lexer → Outcome S → Outcome (Lexer × S)
with_status old new (ret zero s) = ret 0 (new, s)
with_status old new (ret (suc e) s) = ret (suc e) (old, s)
with_status old new fault = fault

module _ {S D : Type 0} (cfg : Config) (fl : Doubles D) (sink : Sink S D) where
  -- The `switch` of the loop. The `case` of IN_BIG_NUMBER is compiled in with EMBEDJSON_BIGNUM
  -- only, and nothing enters that state without it.
  unfoldable pub body_in : LexerState → List ℕ → ℕ → ℕ → Loop → S → Turn S
  body_in lookup_token buf i c v s = lookup sink i c v s
  body_in in_string buf i c v s = string cfg sink buf i c s v
  body_in in_string_escape buf i c v s = string_escape sink i c v s
  body_in in_string_unicode_escape buf i c v s = string_unicode_escape sink i c v s
  body_in in_number_sign buf i c v s = number_sign sink i c v s
  body_in in_number buf i c v s = number cfg sink i c v s
  body_in in_number_frac buf i c v s = number_frac fl sink i c v s
  body_in in_number_exp_sign buf i c v s = number_exp_sign sink i c v s
  body_in in_number_exp buf i c v s = number_exp fl sink i c v s
  body_in in_big_number buf i c v s = if cfg.bignum then big_number sink buf i c v s else next v s
  body_in in_true buf i c v s = keyword_true sink i c v s
  body_in in_false buf i c v s = keyword_false sink i c v s
  body_in in_null buf i c v s = keyword_null sink i c v s

  -- One iteration on the byte `c` of index `i`.
  unfoldable pub body : List ℕ → ℕ → ℕ → Loop → S → Turn S
  body buf i c v s = body_in v.lex.state buf i c (with_lexer v (sniff v.lex c)) s

  -- The iterations on one byte: `data--` and `++data` come back to it. `none` if the fuel is out.
  unfoldable pub byte_rounds : ℕ → List ℕ → ℕ → ℕ → Loop → S → Option (Turn S)
  byte_rounds zero buf i c v s = none
  byte_rounds (suc fuel) buf i c v s =
      repeated (body buf i c v s) (λ v' s'. byte_rounds fuel buf i c v' s')

  -- The loop from index `i` on; the list is what is left of the buffer.
  unfoldable pub bytes_loop : List ℕ → List ℕ → ℕ → Loop → S → Option (Turn S)
  bytes_loop buf [] i v s = some (next v s)
  bytes_loop buf (c ∷ cs) i v s =
      advanced (byte_rounds 2 buf i c v s) (λ v' s'. bytes_loop buf cs (i + 1) v' s')

  -- Behind the loop: the rest of an open string or number is handed on.
  unfoldable pub flush_rest : List ℕ → ℕ → Loop → S → Outcome S
  flush_rest buf i v s =
      if is_in_string v.lex.state
      then flush_string sink buf v.chunk i s
      else if cfg.bignum && is_in_big_number v.lex.state
      then flush_bignum sink buf v.chunk i s
      else ret 0 s

  -- How the function ends: the lexer is written back only if no error was returned.
  unfoldable pub ending : Lexer → List ℕ → ℕ → Turn S → Outcome (Lexer × S)
  ending old buf size (next v s) = with_status old v.lex (flush_rest buf size v s)
  ending old buf size (back v s) = fault
  ending old buf size (stop code s) = ret code (old, s)
  ending old buf size crash = fault

  -- `embedjson_lexer_push`; `none` if the fuel is out, which `Termination` excludes.
  unfoldable pub push : Lexer → S → List ℕ → Option (Outcome (Lexer × S))
  push lex s buf = elim (bytes_loop buf buf 0 (start cfg lex) s) [
    | none ↦ none
    | some t ↦ some (ending lex buf (length buf) t)
  ]

  -- A floating-point number at the end of the input.
  unfoldable pub final_double : Lexer → Option D → S → Outcome S
  final_double lex none s = fault
  final_double lex (some value) s = sink.tokenf (signed fl lex value) null_position s

  unfoldable pub finalize_in : LexerState → Lexer → S → Outcome S
  finalize_in lookup_token lex s = ret 0 s
  finalize_in in_string lex s = sink.error_ex Common.eof_in_string null_position s
  finalize_in in_string_escape lex s = sink.error_ex Common.eof_in_string null_position s
  finalize_in in_string_unicode_escape lex s = sink.error_ex Common.eof_in_string null_position s
  finalize_in in_number_sign lex s = sink.error_ex Common.eof_in_string null_position s
  finalize_in in_number lex s = sink.tokeni (signed_int cfg lex) null_position s
  finalize_in in_number_frac lex s = final_double lex (final_fraction fl lex) s
  finalize_in in_number_exp_sign lex s = sink.error_ex Common.eof_in_exponent null_position s
  finalize_in in_number_exp lex s =
      final_double lex
        (elim (final_fraction fl lex) [ none ↦ none | some value ↦ scale fl lex value ]) s
  finalize_in in_big_number lex s = if cfg.bignum then sink.tokenbn_end null_position s else ret 0 s
  finalize_in in_true lex s = sink.error_ex Common.eof_in_true null_position s
  finalize_in in_false lex s = sink.error_ex Common.eof_in_false null_position s
  finalize_in in_null lex s = sink.error_ex Common.eof_in_null null_position s

  -- `embedjson_lexer_finalize`, which leaves the lexer as it is
  unfoldable pub finalize : Lexer → S → Outcome S
  finalize lex s = finalize_in lex.state lex s
