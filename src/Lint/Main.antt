-- ===== src/Lint/Main.antt =====
-- `main` of embedjson_lint.c.
use embedjson.Base.Bytes.{same_bytes}
use embedjson.Base.{ℕ, zero, suc, true, List, [], ◌∷◌, Option, none, some, if◌then◌else◌}
use embedjson.Client.{Client}
use embedjson.Common.Messages.{strerror}
use embedjson.Common.{Position, null_position, at, Outcome, ret, fault}
use embedjson.Config.{Config}
use embedjson.Lexer.Double.{Doubles}
use embedjson.Lexer.{Lexer, initial_lexer}
use embedjson.Lint.{Lint, initial_lint, Complaint, lint_client}
use embedjson.Parser.Api.{initial_parser, push, finalize}
use embedjson.Parser.{Parser}

abbrev pub short_verbose : List ℕ
short_verbose = b'-' ∷ b'v' ∷ []

abbrev pub long_verbose : List ℕ
long_verbose = b'-' ∷ b'-' ∷ b'v' ∷ b'e' ∷ b'r' ∷ b'b' ∷ b'o' ∷ b's' ∷ b'e' ∷ []

-- `error_position ? *error_position : '?'`, where `ch` is the buffer of one byte that was handed
-- to the parser. `none` is a read outside of it.
unfoldable pub symbol_at : Position → ℕ → Option ℕ
symbol_at null_position ch = some b'?'
symbol_at (at zero) ch = some ch
symbol_at _ ch = none

module _ {D : Type 0} where
  abbrev pub argument : List ℕ → Lint D → Lint D
  argument arg u =
      if same_bytes arg short_verbose
      then record u { verbose = true }
      else if same_bytes arg long_verbose
      then record u { verbose = true }
      else record u { input_file = some arg }

  -- The loop over `argv`, from `argv[1]` on.
  unfoldable pub arguments : List (List ℕ) → Lint D → Lint D
  arguments [] u = u
  arguments (arg ∷ rest) u = arguments rest (argument arg u)

  -- The message to stderr and the exit status behind an error; `none` is a read outside the buffer.
  unfoldable pub complained : ℕ → Lint D → Option ℕ → Outcome (Lint D)
  complained err u none = fault
  complained err u (some symbol) =
      let complaint : Complaint = record { symbol = symbol; message = strerror u.error_code } in
      ret err (record u { complaints = complaint ∷ u.complaints })

  abbrev pub complain : ℕ → ℕ → Lint D → Outcome (Lint D)
  complain err ch u = complained err u (symbol_at u.error_position ch)

  -- Behind a call of the library: `if (err) { …; return err; }`
  abbrev pub reported :
      {A : Type 0}
      → ℕ
      → (A → Parser (Lint D))
      → Outcome A
      → (A → Option (Outcome (Lint D)))
      → Option (Outcome (Lint D))
  reported ch parser_of (ret zero a) rest = rest a
  reported ch parser_of (ret (suc err) a) rest = some (complain (suc err) ch (parser_of a).user)
  reported ch parser_of fault rest = some fault

module _ {D : Type 0} (cfg : Config) (fl : Doubles D) (client : Client (Lint D) D) where
  -- Behind the loop: `ch` is the last byte that was read.
  unfoldable pub close_input : ℕ → Lexer → Parser (Lint D) → Option (Outcome (Lint D))
  close_input ch lex p =
      reported ch (λ p'. p') (finalize cfg fl client lex p) (λ p'. some (ret 0 p'.user))

  -- `while (read(fd, &ch, 1) > 0)`, over the bytes that `read` delivers.
  unfoldable pub read_loop : List ℕ → ℕ → Lexer → Parser (Lint D) → Option (Outcome (Lint D))
  read_loop [] ch lex p = close_input ch lex p
  read_loop (c ∷ rest) ch lex p = elim (push cfg fl client lex p (c ∷ [])) [
    | none ↦ none
    | some m ↦ reported c (λ o. o.1) m (λ o. read_loop rest c o.0 o.1)
  ]

-- `main`. `input` says which bytes `read` delivers from a file, or from the standard input where there
-- is no name, and none where `open` fails. The bytes of a static stack are those that `memset` clears.
unfoldable pub main :
    {D : Type 0}
    → Config
    → Doubles D
    → (List ℕ → ℕ → Option (List ℕ))
    → (Option (List ℕ) → List ℕ)
    → List ℕ
    → List (List ℕ)
    → Option (Outcome (Lint D))
main cfg fl realloc input stack argv =
    let u = arguments argv initial_lint in
    read_loop cfg fl (lint_client realloc) (input u.input_file) 0 initial_lexer
      (initial_parser stack 0 u)
