-- ===== src/Tests/Documents.antt =====
-- Whole documents through `embedjson_push` and `embedjson_finalize`.
use embedjson.Base.{ℕ, zero, suc, List, [], Option, none, some, replicate}
use embedjson.Common.Messages.Numbers.{bytes_of}
use embedjson.Common.{Outcome, ret, fault}
use embedjson.Config.{default_config}
use embedjson.Lexer.{initial_lexer}
use embedjson.Parser.Api.{initial_parser, push, finalize}
use embedjson.Parser.{Parser}
use embedjson.Tests.{symbolic, Entry, recorder}

abbrev ended : Outcome (Parser (List Entry)) → Option (ℕ × List Entry)
ended (ret code p) = some (code, p.user)
ended fault = none

run : List ℕ → Option (ℕ × List Entry)
run text =
    elim (push default_config symbolic recorder initial_lexer (initial_parser (replicate 16 0) 0 [])
      text) [
        | none ↦ none
        | some fault ↦ none
        | some (ret zero (lex, p)) ↦ ended (finalize default_config symbolic recorder lex p)
        | some (ret (suc e) (lex, p)) ↦ some (suc e, p.user)
      ]

r1 : Option (ℕ × List Entry)
r1 = run (bytes_of "{\"a\": [1, -25, true]}")

r2 : Option (ℕ × List Entry)
r2 = run (bytes_of "{\"a\":[],\"b\":1}")

r3 : Option (ℕ × List Entry)
r3 = run (bytes_of "{\"a\":[]\"b\":1.5e3}")

r4 : Option (ℕ × List Entry)
r4 = run (bytes_of "[\"a\\u12afb\",9223372036854775807]")
