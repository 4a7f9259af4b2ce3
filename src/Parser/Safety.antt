-- ===== src/Parser/Safety.antt =====
-- The handlers of parser.c keep the contract with the lexer, so that `embedjson_push` as a whole
-- keeps the parser's invariant and nothing in it faults. The user's callbacks may fail.
pub mod Moves
pub mod Tokens
pub mod Scalars
pub mod Push
use embedjson.Base.{ℕ, zero, suc, refl, ◌≢◌}
use embedjson.Client.{Client, Event}
use embedjson.Common.{ErrorCode, Position, Outcome, ret, fault, ◌>>=◌}
use embedjson.Lexer.Push.Contract.{Within, Fails}
use embedjson.Lexer.Push.Contract.Kept.{Fails-Within}
use embedjson.Parser.{Parser, call, error}

-- The user's `embedjson_error` does not return 0.
abbrev pub Strict : {U D : Type 0} → Client U D → Type 0
Strict {U} client = (code : ErrorCode) (p : Position) (u : U) → (client.error_ex code p u).0 ≢ 0

ret-Within : {A : Type 0} (Q : A → Type 0) (code : ℕ) (a : A) → Q a → Within Q (ret code a)
ret-Within Q zero a h = h
ret-Within Q (suc e) a h = tt

ret-Fails : {A : Type 0} (code : ℕ) (a : A) → code ≢ 0 → Fails (ret code a)
ret-Fails zero a h = absurd (h refl)
ret-Fails (suc e) a h = tt

pub bind-Within :
    {A : Type 0} (Q R : A → Type 0) (m : Outcome A) (f : A → Outcome A)
    → Within Q m
    → ((a : A) → Q a → Within R (f a))
    → Within R (m >>= f)
bind-Within Q R (ret zero a) f h k = k a h
bind-Within Q R (ret (suc e) a) f h k = tt
bind-Within Q R fault f h k = absurd h

module _ {U D : Type 0} (client : Client U D) where
  pub call-Within :
      (Q : Parser U → Type 0) (e : Event D) (p : Parser U)
      → ((u : U) → Q (record p { user = u }))
      → Within Q (call client e p)
  call-Within Q e p h = ret-Within Q (client.event e p.user).0 _ (h (client.event e p.user).1)

  module _ (strict : Strict client) (code : ErrorCode) (position : Position) (p : Parser U) where
    pub error-Fails : Fails (error client code position p)
    error-Fails = ret-Fails (client.error_ex code position p.user).0 _ (strict code position p.user)

    pub error-Within : (Q : Parser U → Type 0) → Within Q (error client code position p)
    error-Within Q = Fails-Within Q (error client code position p) error-Fails
