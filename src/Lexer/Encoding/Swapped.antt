-- ===== src/Lexer/Encoding/Swapped.antt =====
-- The guess at the encoding in lexer.c, for texts that begin with two ASCII characters.
use embedjson.Base.Bytes.{passes, passes-at}
use embedjson.Base.{ℕ, ◌+◌, ◌<◌, ◌≡◌, refl, Bool, true, List, [], ◌∷◌, ◌==◌, arith}
use embedjson.Lexer.Encoding.{as_int, detect}
use embedjson.Lexer.{TextEncoding, unknown, utf8, utf16le, utf16be, utf32le, utf32be}

abbrev number_of : TextEncoding → ℕ
number_of unknown = 0
number_of utf8 = 1
number_of utf16le = 2
number_of utf16be = 3
number_of utf32le = 4
number_of utf32be = 5

number_of-injective : (a b : TextEncoding) → (number_of a == number_of b) ≡ true → a ≡ b
number_of-injective a b h = ground arith

-- The verdict on four bytes is the one expected.
abbrev verdict : List ℕ → TextEncoding → Bool
verdict m e = number_of (detect (as_int m)) == number_of e

table32be : passes (λ a. verdict (0 ∷ 0 ∷ 0 ∷ (a + 1) ∷ []) utf32le) 127 ≡ true
unfolding passes detect as_int
table32be = refl

table32le : passes (λ a. verdict ((a + 1) ∷ 0 ∷ 0 ∷ 0 ∷ []) utf32be) 127 ≡ true
unfolding passes detect as_int
table32le = refl

table16be :
    passes (λ a. passes (λ b. verdict (0 ∷ (a + 1) ∷ 0 ∷ (b + 1) ∷ []) utf16le) 127) 127 ≡ true
unfolding passes detect as_int
table16be = refl

table16le :
    passes (λ a. passes (λ b. verdict ((a + 1) ∷ 0 ∷ (b + 1) ∷ 0 ∷ []) utf16be) 127) 127 ≡ true
unfolding passes detect as_int
table16le = refl

-- On four bytes that two ASCII characters other than NUL give in UTF-16, or one gives in UTF-32, the
-- lexer guesses the right width and the wrong byte order: the big-endian text is taken for a
-- little-endian one, and the other way round.
pub detect-swapped :
    (a b : ℕ)
    → a < 127
    → b < 127
    → (detect (as_int (0 ∷ 0 ∷ 0 ∷ (a + 1) ∷ [])) ≡ utf32le)
      × (detect (as_int ((a + 1) ∷ 0 ∷ 0 ∷ 0 ∷ [])) ≡ utf32be)
      × (detect (as_int (0 ∷ (a + 1) ∷ 0 ∷ (b + 1) ∷ [])) ≡ utf16le)
      × (detect (as_int ((a + 1) ∷ 0 ∷ (b + 1) ∷ 0 ∷ [])) ≡ utf16be)
detect-swapped a b ha hb = (
  number_of-injective _ _ (passes-at _ 127 a table32be ha),
  number_of-injective _ _ (passes-at _ 127 a table32le ha),
  number_of-injective _ _ (passes-at _ 127 b (passes-at _ 127 a table16be ha) hb),
  number_of-injective _ _ (passes-at _ 127 b (passes-at _ 127 a table16le ha) hb),
)
