-- ===== src/Lexer/Push/Written.antt =====
-- Whole buffers through `embedjson_lexer_push` of lexer.c: texts of JSON lexemes.
use embedjson.Lexer.Double.{Doubles}
use embedjson.Lexer.Step.Number.Decimal.{decimal}
use embedjson.Base.{
  ◌≢◌, ◌≤◌, ◌<◌, ℕ, ◌+◌, ◌≡◌, Bool, true, some, List, [], ◌∷◌, ◌++◌, length, if◌then◌else◌,
}
use embedjson.Base.Ints.{ℤ, pos}
use embedjson.Common
use embedjson.Common.{Position, at, position_before, Outcome, ret, fault}
use embedjson.Lexer.Step.Number.{opposite}
use embedjson.Config.{Config, ull_mod}
use embedjson.Lexer.Push.Lexemes.{mark}
use embedjson.Lexer.Step.Lookup.{is_space}
use embedjson.Lexer.Step.Number.Integer.{value, AreDigits, Ends}
use embedjson.Lexer.Step.Number.Numeral.{IsNumeral, text}
use embedjson.Lexer.Step.Text.Plain.{IsPlain}
use embedjson.Lexer.{Sink, Token, true_token, false_token, null_token}

-- The calls of handlers that a lexeme comes to.
pub data Call : Type 0 where
  token : Token → Position → Call
  string : Position → List ℕ → Position → Position → Call
  integer : ℤ → Position → Call
  -- the sign, the integer, and the value and the number of the digits behind the point
  decimal_call : Bool → ℕ → ℕ → ℕ → Position → Call

-- `Written cfg i calls bytes`: the bytes from index `i` of the buffer on are a sequence of lexemes
-- and white space, ended by the end of the buffer, and the calls are those of the lexemes.
pub data Written (cfg : Config) : ℕ → List Call → List ℕ → Type 0 where
  finished : (i : ℕ) → Written cfg i [] []
  space :
      (i c : ℕ) (calls : List Call) (rest : List ℕ)
      → is_space c ≡ true
      → Written cfg (i + 1) calls rest
      → Written cfg i calls (c ∷ rest)
  punctuation :
      (i c : ℕ) (t : Token) (calls : List Call) (rest : List ℕ)
      → mark t ≡ some c
      → Written cfg (i + 1) calls rest
      → Written cfg i (token t (at i) ∷ calls) (c ∷ rest)
  true_word :
      (i : ℕ) (calls : List Call) (rest : List ℕ)
      → Written cfg (i + 3 + 1) calls rest
      → Written cfg i (token true_token (at (i + 3)) ∷ calls) (b't' ∷ b'r' ∷ b'u' ∷ b'e' ∷ rest)
  false_word :
      (i : ℕ) (calls : List Call) (rest : List ℕ)
      → Written cfg (i + 4 + 1) calls rest
      → Written cfg i
          (token false_token (at (i + 4)) ∷ calls)
          (b'f' ∷ b'a' ∷ b'l' ∷ b's' ∷ b'e' ∷ rest)
  null_word :
      (i : ℕ) (calls : List Call) (rest : List ℕ)
      → Written cfg (i + 3 + 1) calls rest
      → Written cfg i (token null_token (at (i + 3)) ∷ calls) (b'n' ∷ b'u' ∷ b'l' ∷ b'l' ∷ rest)
  quoted_text :
      (i : ℕ) (cs : List ℕ) (calls : List Call) (rest : List ℕ)
      → IsPlain cs
      → Written cfg (i + 1 + length cs + 1) calls rest
      → Written cfg i
          (string (at i) cs (at (i + 1)) (at (i + 1 + length cs)) ∷ calls)
          (b'"' ∷ cs ++ b'"' ∷ rest)
  -- The byte behind a number belongs to the next lexeme or is white space.
  number :
      (i : ℕ) (minus : Bool) (cs : List ℕ) (e : ℕ) (calls : List Call) (rest : List ℕ)
      → IsNumeral cfg cs
      → Ends e
      → Written cfg (i + length (text minus cs)) calls (e ∷ rest)
      → Written cfg i
          (integer
              (if minus then opposite cfg (value 0 cs) else pos (value 0 cs))
              (position_before (i + length (text minus cs)))
            ∷ calls)
          (text minus cs ++ e ∷ rest)
  decimal_number :
      (i : ℕ) (minus : Bool) (cs fs : List ℕ) (e : ℕ) (calls : List Call) (rest : List ℕ)
      → IsNumeral cfg cs
      → AreDigits fs
      → length fs ≢ 0
      → length fs ≤ 323
      → value 0 fs < ull_mod
      → Ends e
      → Written cfg (i + length (text minus cs) + 1 + length fs) calls (e ∷ rest)
      → Written cfg i
          (decimal_call minus
              (value 0 cs)
              (value 0 fs)
              (length fs)
              (position_before (i + length (text minus cs) + 1 + length fs))
            ∷ calls)
          (text minus cs ++ (b'.' ∷ fs ++ e ∷ rest))

module _ {S D : Type 0} (sink : Sink S D) where
  -- The text of a string is handed on in one chunk, or not at all if it is empty.
  abbrev pub chunk_call : List ℕ → Position → S → Outcome S
  chunk_call [] p s = ret 0 s
  chunk_call (c ∷ cs) p s = sink.tokenc p (c ∷ cs) s

module _ {S D : Type 0} (fl : Doubles D) (sink : Sink S D) where
  abbrev pub run_call : Call → S → Outcome S
  run_call (token t p) s = sink.token t p s
  run_call (string b cs p e) s =
      Common.◌>>=◌ (sink.tokenc_begin b s)
        (λ s1. Common.◌>>=◌ (chunk_call sink cs p s1) (sink.tokenc_end e))
  run_call (integer n p) s = sink.tokeni n p s
  run_call (decimal_call minus n f k p) s = sink.tokenf (decimal fl minus n f k) p s

  -- One after the other, until one reports an error.
  abbrev pub run_calls : List Call → S → Outcome S
  run_calls [] s = ret 0 s
  run_calls (k ∷ calls) s = Common.◌>>=◌ (run_call k s) (run_calls calls)
