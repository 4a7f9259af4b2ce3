-- ===== src/Lint/Exit.antt =====
-- The exit status of embedjson_lint.c.
use embedjson.Base.{ℕ, zero, suc, ◌≡◌, List, [], ◌∷◌, Option, none, some}
use embedjson.Common.Messages.{strerror}
use embedjson.Common.{Outcome, ret, fault}
use embedjson.Config.{Config}
use embedjson.Lexer.Double.{Doubles}
use embedjson.Lexer.{Lexer}
use embedjson.Lint.Main.{symbol_at}
use embedjson.Lint.{Complaint, Lint, lint_client}
use embedjson.Parser.Api.{push, finalize}
use embedjson.Parser.Stack.Laws.{HasStack, brackets}
use embedjson.Parser.{done, Parser}

-- The state behind the message about an error.
abbrev pub told : {D : Type 0} → Lint D → ℕ → Lint D
told u symbol =
    let complaint : Complaint = record { symbol = symbol; message = strerror u.error_code } in
    record u { complaints = complaint ∷ u.complaints }

module _ {D : Type 0} (cfg : Config) (fl : Doubles D) (realloc : List ℕ → ℕ → Option (List ℕ)) where
  -- The bytes handed to `embedjson_push` one by one and then `embedjson_finalize`, up to the first
  -- status that is not 0: that status, the byte in the buffer before and behind the calls, and the
  -- parser that the last call leaves.
  pub data Runs : ℕ → ℕ → ℕ → List ℕ → Lexer → Parser (Lint D) → Parser (Lint D) → Type 0 where
    at_end :
        (code ch : ℕ) (lex : Lexer) (p q : Parser (Lint D))
        → finalize cfg fl (lint_client realloc) lex p ≡ ret code q
        → Runs code ch ch [] lex p q
    at_byte :
        (code ch c : ℕ) (rest : List ℕ) (lex lex' : Lexer) (p q : Parser (Lint D))
        → push cfg fl (lint_client realloc) lex p (c ∷ []) ≡ some (ret (suc code) (lex', q))
        → Runs (suc code) ch c (c ∷ rest) lex p q
    later :
        (code ch c last : ℕ) (rest : List ℕ) (lex lex' : Lexer) (p p' q : Parser (Lint D))
        → push cfg fl (lint_client realloc) lex p (c ∷ []) ≡ some (ret 0 (lex', p'))
        → Runs code c last rest lex' p' q
        → Runs code ch last (c ∷ rest) lex p q

  -- What the end of the program says of the library's calls on the bytes of the input, where `ch` is
  -- in the buffer before them.
  abbrev pub IsVerdict : ℕ → List ℕ → Lexer → Parser (Lint D) → Outcome (Lint D) → Type 0
  IsVerdict ch bytes lex p (ret zero u) =
      (last : ℕ) × (q : Parser (Lint D)) × Runs 0 ch last bytes lex p q
      × (q.state ≡ done)
      × (brackets q ≡ [])
      × HasStack cfg q
      × (q.user ≡ u)
  IsVerdict ch bytes lex p (ret (suc code) u) =
      (last : ℕ) × (q : Parser (Lint D)) × Runs (suc code) ch last bytes lex p q
      × (symbol : ℕ) × (symbol_at q.user.error_position last ≡ some symbol)
      × (u ≡ told q.user symbol)
  IsVerdict ch bytes lex p fault =
      (code : ℕ) × (last : ℕ) × (q : Parser (Lint D)) × Runs (suc code) ch last bytes lex p q
      × (symbol_at q.user.error_position last ≡ none)

  abbrev Ends : ℕ → List ℕ → Lexer → Parser (Lint D) → Option (Outcome (Lint D)) → Type 0
  Ends ch bytes lex p o = (r : Outcome (Lint D)) × (o ≡ some r) × IsVerdict ch bytes lex p r
