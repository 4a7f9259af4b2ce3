-- ===== src/Tests/Lexer.antt =====
-- The theorems about lexer.c at concrete inputs, with the parser and the recording client behind
-- the lexer.
use embedjson.Base.{◌≡◌, List, [], ◌∷◌, some, replicate}
use embedjson.Common.{Outcome}
use embedjson.Config.{default_config}
use embedjson.Lexer.Push
use embedjson.Lexer.Push.Termination.{push_total}
use embedjson.Lexer.{Lexer, Sink, initial_lexer}
use embedjson.Parser.Api.{parser_sink, initial_parser}
use embedjson.Parser.{Parser}
use embedjson.Tests.{Sym, symbolic, Entry, recorder}
use embedjson.Base.{refl, ℕ, ◌++◌, true, arith}
use embedjson.Base.Ints.{negated}
use embedjson.Common
use embedjson.Common.{at, null_position, bad_utf8, int_overflow}
use embedjson.Config.{int_max}
use embedjson.Common.{empty_frac, empty_exp}
use embedjson.Lexer.Encoding.Swapped.{detect-swapped}
use embedjson.Lexer.Encoding.{detect, as_int}
use embedjson.Common.{elsewhere}
use embedjson.Lexer.Push.Steps.{called}
use embedjson.Lexer.Step.Text.Unicode.{unicode_escape_lem, escaping}
use embedjson.Lexer.Step.Text.{hex_value}
use embedjson.Lexer.{in_string_escape}
use embedjson.Lexer.Push.Reads.{push-reads}
use embedjson.Lexer.Push.Lexemes.{resting}
use embedjson.Lexer.Push.Written.{
  Call, Written, finished, space, punctuation, true_word, quoted_text, run_calls,
}
use embedjson.Lexer.Push.Written
use embedjson.Lexer.Push.Steps.{sniff_all}
use embedjson.Lexer.Push.{bytes_loop}
use embedjson.Lexer.Step.Number.Numeral.{several}
use embedjson.Lexer.Step.Text.Plain.{plain_string, rested, empty, ascii, wide}
use embedjson.Lexer.Step.{give_up}
use embedjson.Lexer.Utf8.Chars.{char-taken, false_char-taken, inside}
use embedjson.Lexer.Utf8.Rfc3629.{three, four_low, overlong}
use embedjson.Lexer.{
  open_curly_bracket, close_curly_bracket, open_bracket, close_bracket, comma, colon, true_token,
  utf16le, utf16be, utf32le, utf32be,
}

abbrev pub sink : Sink (Parser (List Entry)) Sym
sink = parser_sink default_config symbolic recorder

abbrev pub fresh : Parser (List Entry)
fresh = initial_parser (replicate 16 0) 0 []

push_total_example :
    (r : Outcome (Lexer × Parser (List Entry))) × (Push.push default_config symbolic sink
        initial_lexer fresh
        (b'1' ∷ b'2' ∷ b' ' ∷ [])
      ≡ some r)
push_total_example =
    push_total default_config symbolic sink initial_lexer fresh (b'1' ∷ b'2' ∷ b' ' ∷ [])

-- The euro sign.
abbrev euro : List ℕ
euro = 0xe2 ∷ 0x82 ∷ 0xac ∷ []

plain_string_example :
    Push.push default_config symbolic sink initial_lexer fresh
      (b'"' ∷ (b'a' ∷ euro ++ []) ++ b'"' ∷ [])
    ≡ some (
        Push.with_status initial_lexer (rested initial_lexer (b'"' ∷ b'a' ∷ euro ++ b'"' ∷ [])) (
          Common.◌>>=◌
            (sink.tokenc_begin (at 0) fresh)
            (λ s1. Common.◌>>=◌ (sink.tokenc (at 1) (b'a' ∷ euro) s1) (sink.tokenc_end (at 5)))))
plain_string_example =
    plain_string default_config symbolic sink refl initial_lexer fresh (b'a' ∷ euro ++ []) refl refl
      refl
      (ascii b'a' (euro ++ []) (omega arith) (omega arith) (omega arith)
        (wide euro [] (three 0xe2 0x82 0xac (omega arith) (omega arith) (omega arith)) refl empty))

-- U+20000, which the mask loses.
abbrev lost : List ℕ
lost = 0xf0 ∷ 0xa0 ∷ 0x80 ∷ 0x80 ∷ []

char-taken_example :
    bytes_loop default_config symbolic sink []
      (lost ++ [])
      1
      (inside initial_lexer (some 1) 0 0)
      fresh
    ≡ some (give_up (sink.error_ex bad_utf8 (at 2) fresh))
char-taken_example =
    char-taken default_config symbolic sink [] (some 1) refl lost [] 1 initial_lexer fresh
      (four_low 0xa0 0x80 0x80 (omega arith) (omega arith) (omega arith))

false_char-taken_example :
    bytes_loop default_config symbolic sink []
      (0xc0 ∷ 0x80 ∷ [])
      1
      (inside initial_lexer (some 1) 0 0)
      fresh
    ≡ bytes_loop default_config symbolic sink [] [] 3
        (inside (sniff_all initial_lexer (0xc0 ∷ 0x80 ∷ [])) (some 1) 0 0)
        fresh
false_char-taken_example =
    false_char-taken default_config symbolic sink [] (some 1) refl (0xc0 ∷ 0x80 ∷ []) [] 1
      initial_lexer fresh (overlong 0xc0 0x80 (omega arith) (omega arith))

-- `[1` in UTF-16 and `[` in UTF-32
detect-swapped_example :
    (detect (as_int (0 ∷ 0 ∷ 0 ∷ 0x5b ∷ [])) ≡ utf32le)
    × (detect (as_int (0x5b ∷ 0 ∷ 0 ∷ 0 ∷ [])) ≡ utf32be)
    × (detect (as_int (0 ∷ 0x5b ∷ 0 ∷ 0x31 ∷ [])) ≡ utf16le)
    × (detect (as_int (0x5b ∷ 0 ∷ 0x31 ∷ 0 ∷ [])) ≡ utf16be)
detect-swapped_example = detect-swapped 0x5a 0x30 (omega arith) (omega arith)

-- `{"a":[-20, true]}`
abbrev pub document : List ℕ
document =
    b'{' ∷ b'"' ∷ b'a' ∷ b'"' ∷ b':' ∷ b'[' ∷ b'-' ∷ b'2' ∷ b'0' ∷ b',' ∷ b' ' ∷ b't' ∷ b'r' ∷ b'u'
    ∷ b'e' ∷ b']' ∷ b'}' ∷ []

abbrev pub document_calls : List Call
document_calls =
    Written.token open_curly_bracket (at 0)
    ∷ Written.string (at 1) (b'a' ∷ []) (at 2) (at 3)
    ∷ Written.token colon (at 4)
    ∷ Written.token open_bracket (at 5)
    ∷ Written.integer (negated 20) (at 8)
    ∷ Written.token comma (at 9)
    ∷ Written.token true_token (at 14)
    ∷ Written.token close_bracket (at 15)
    ∷ Written.token close_curly_bracket (at 16)
    ∷ []

pub document-Written : Written default_config 0 document_calls document
unfolding int_max
document-Written = punctuation 0 b'{' open_curly_bracket _ _ refl (
    quoted_text 1 (b'a' ∷ []) _ _ (ascii b'a' [] (omega arith) (omega arith) (omega arith) empty) (
      punctuation 4 b':' colon _ _ refl (
        punctuation 5 b'[' open_bracket _ _ refl (
          Written.number 6 true (b'2' ∷ b'0' ∷ []) b',' _ _
            (several b'2' (b'0' ∷ []) refl (omega arith) (refl, tt) (omega arith))
            (refl, omega arith, omega arith, omega arith)
            (punctuation 9 b',' comma _ _ refl (
              space 10 b' ' _ _ refl (
                true_word 11 _ _ (
                  punctuation 15 b']' close_bracket _ _ refl
                    (punctuation 16 b'}' close_curly_bracket _ _ refl (finished 17))))))))))

push-reads_example :
    (after : Lexer) × ((s : Parser (List Entry))
      → Push.push default_config symbolic sink initial_lexer s document
        ≡ some (
            Push.with_status initial_lexer
              (resting after)
              (run_calls symbolic sink document_calls s)))
push-reads_example =
    push-reads default_config symbolic sink document refl initial_lexer document_calls refl refl
      refl refl refl refl refl document-Written

-- `u12aF` behind a backslash
unicode_escape_lem_example :
    bytes_loop default_config symbolic sink []
      (b'u' ∷ b'1' ∷ b'2' ∷ b'a' ∷ b'F' ∷ [])
      2
      (escaping initial_lexer (some 1) in_string_escape 0 0 0)
      fresh
    ≡ called (sink.tokenc elsewhere (0x12 ∷ 0xaf ∷ []) fresh) (λ s'.
      bytes_loop default_config symbolic sink [] [] 7
        (inside
          (record (sniff_all initial_lexer (b'u' ∷ b'1' ∷ b'2' ∷ b'a' ∷ b'F' ∷ [])) {
            offset = 4;
            unicode_hi = 0x12;
            unicode_lo = 0xaf;
          })
          (some 7)
          0
          0)
        s')
unfolding hex_value
unicode_escape_lem_example =
    unicode_escape_lem default_config symbolic sink [] (some 1) 0 0 0 b'1' b'2' b'a' b'F' 1 2 10 15
      [] initial_lexer 2 fresh refl refl refl refl
