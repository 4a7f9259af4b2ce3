-- ===== src/Lexer/Utf8/Rfc3629.antt =====
-- The characters of more than one byte in UTF-8, from section 4 of RFC 3629, for the validation in
-- lexer.c.
use embedjson.Base.{◌≢◌, ℕ, ◌≤◌, Bool, false, ◌&&◌, List, [], ◌∷◌, ◌==◌}
use embedjson.Lexer.Utf8.Masks.{between}

abbrev pub In : ℕ → ℕ → ℕ → Type 0
In lo hi c = (lo ≤ c) × (c ≤ hi)

abbrev pub IsTail : ℕ → Type 0
IsTail c = In 0x80 0xbf c

-- UTF8-2, UTF8-3 and UTF8-4
pub data IsChar : List ℕ → Type 0 where
  two : (a b : ℕ) → In 0xc2 0xdf a → IsTail b → IsChar (a ∷ b ∷ [])
  three_low : (b c : ℕ) → In 0xa0 0xbf b → IsTail c → IsChar (0xe0 ∷ b ∷ c ∷ [])
  three : (a b c : ℕ) → In 0xe1 0xec a → IsTail b → IsTail c → IsChar (a ∷ b ∷ c ∷ [])
  three_mid : (b c : ℕ) → In 0x80 0x9f b → IsTail c → IsChar (0xed ∷ b ∷ c ∷ [])
  three_high : (a b c : ℕ) → In 0xee 0xef a → IsTail b → IsTail c → IsChar (a ∷ b ∷ c ∷ [])
  four_low : (b c d : ℕ) → In 0x90 0xbf b → IsTail c → IsTail d → IsChar (0xf0 ∷ b ∷ c ∷ d ∷ [])
  four :
      (a b c d : ℕ) → In 0xf1 0xf3 a → IsTail b → IsTail c → IsTail d → IsChar (a ∷ b ∷ c ∷ d ∷ [])
  four_high : (b c d : ℕ) → In 0x80 0x8f b → IsTail c → IsTail d → IsChar (0xf4 ∷ b ∷ c ∷ d ∷ [])

-- The characters that the mask 0xd0 loses: those of F0 and then A0 to AF.
abbrev pub refused : List ℕ → Bool
refused (a ∷ b ∷ more) = a == 0xf0 && between 0xa0 0xb0 b
refused _ = false

-- Sequences that are no characters: a byte of the middle alone, a character of one byte written with
-- two, and one of four bytes with an ASCII character in second place.
pub data IsFalseChar : List ℕ → Type 0 where
  stray : (a : ℕ) → IsTail a → IsFalseChar (a ∷ [])
  overlong : (a b : ℕ) → In 0xc0 0xc1 a → IsTail b → IsFalseChar (a ∷ b ∷ [])
  unchecked :
      (a b c d : ℕ)
      → In 0xf1 0xf3 a
      → b ≤ 0x7f
      → b ≢ b'"'
      → b ≢ b'\\'
      → IsTail c
      → IsTail d
      → IsFalseChar (a ∷ b ∷ c ∷ d ∷ [])
