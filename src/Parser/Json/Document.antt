-- ===== src/Parser/Json/Document.antt =====
-- Whole documents through `embedjson_push` and `embedjson_finalize` of parser.c.
use embedjson.Client.{Client}
use embedjson.Config.{Config}
use embedjson.Lexer.Push
use embedjson.Lexer.Push.Written.{Written}
use embedjson.Lexer.{Lexer}
use embedjson.Parser.Json.{Json}
use embedjson.Parser.{Parser}
