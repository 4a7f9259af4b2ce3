-- ===== src/Tests.antt =====
-- A client that records the events of the user's callbacks, and runs of whole documents.
mod Documents
mod Parser
mod Stack
mod Lexer
mod Whole
mod Safety
mod Lint
mod Units
mod Messages
mod Numbers
use embedjson.Base.{ℕ, Bool, true, List, [], ◌∷◌}
use embedjson.Base.Ints.{ℤ}
use embedjson.Client.{Event, Client}
use embedjson.Common.{ErrorCode, Position}
use embedjson.Lexer.Double.{Doubles}

-- A double as the text of its computation.
pub data Sym : Type 0 where
  whole : ℤ → Sym
  natural : ℕ → Sym
  power : ℤ → Sym
  plus minus times : Sym → Sym → Sym

abbrev pub symbolic : Doubles Sym
symbolic = record {
  of_int = whole;
  of_ull = natural;
  literal = power;
  add = plus;
  sub = minus;
  mul = times;
}

-- What the recorder keeps, the last entry first.
pub data Entry : Type 0 where
  event : Event Sym → Entry
  error : ErrorCode → Position → Entry

-- Every callback returns 0, and the error callback returns 1.
abbrev pub recorder : Client (List Entry) Sym
recorder = record {
  event = λ e log. (0, event e ∷ log);
  error_ex = λ code position log. (1, error code position ∷ log);
  stack_overflow = λ stack size cap log. (1, stack, cap, log);
}
