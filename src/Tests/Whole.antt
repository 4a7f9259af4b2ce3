-- ===== src/Tests/Whole.antt =====
-- The theorem about whole documents at a concrete document, with the recording client.
use embedjson.Base.{◌≡◌, refl, List, [], ◌∷◌, arith}
use embedjson.Base.Ints.{negated}
use embedjson.Common.{ret}
use embedjson.Config.{default_config}
use embedjson.Lexer.{Lexer}
use embedjson.Lexer.Push.Written.{Call, run_calls}
use embedjson.Parser.Json.Finish.{document_finishes}
use embedjson.Parser.Json.{
  Json, true_value, integer, array, object, no_items, item, no_members, member,
}
use embedjson.Parser.Stack.Laws.{HasStack, brackets}
use embedjson.Parser.{maybe_array_value, done, Parser}
use embedjson.Tests.Lexer.{fresh, sink}
use embedjson.Tests.Parser.{nested, at_array-IsParser, recorder-Obliging}
use embedjson.Tests.{Entry, symbolic, recorder}

-- `{"a":[-20, true]}`
abbrev value : Json
value =
    object (
      member (b'a' ∷ []) (array (item (integer (negated 20)) (item true_value no_items)))
        no_members)

pub fresh-HasStack : HasStack default_config fresh
fresh-HasStack = record {
  capacity_eq = refl;
  small = omega arith;
  size_le = omega arith;
  bytes = omega arith;
}

-- Inside `{"key":[`, where an item or `]` may come.
document_finishes_example :
    (calls : List Call) × (q : Parser (List Entry)) × (run_calls symbolic sink calls
        (nested maybe_array_value)
      ≡ ret 0 q)
    × (q.state ≡ done)
    × (brackets q ≡ [])
document_finishes_example =
    document_finishes default_config symbolic recorder recorder-Obliging (nested maybe_array_value)
      at_array-IsParser
