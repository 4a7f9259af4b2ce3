-- ===== src/Lexer/Utf8/Masks.antt =====
-- The masks of the validation of UTF-8 in lexer.c as ranges of bytes, by evaluation over all bytes.
use embedjson.Base.Bytes.{passes, passes-at}
use embedjson.Base.{
  ℕ, ◌<◌, ◌≡◌, refl, Bool, true, false, ◌||◌, ◌&&◌, bit_and, leb, ltb, ◌==◌, arith,
}

abbrev agree : Bool → Bool → Bool
agree true true = true
agree false false = true
agree _ _ = false

agree→eq : (a b : Bool) → agree a b ≡ true → a ≡ b
agree→eq a b h = ground arith

-- `lo <= c && c < hi`
abbrev pub between : ℕ → ℕ → ℕ → Bool
between lo hi c = leb lo c && ltb c hi

-- The range of each mask.
pub record Ranges (c : ℕ) : Type 0 where
  pub lead2 : (bit_and c 0xe0 == 0xc0) ≡ between 0xc0 0xe0 c
  pub lead3 : (bit_and c 0xf0 == 0xe0) ≡ between 0xe0 0xf0 c
  pub lead4 : (bit_and c 0xf8 == 0xf0) ≡ between 0xf0 0xf8 c
  pub lead5 : (bit_and c 0xf8 == 0xf8) ≡ between 0xf8 0x100 c
  pub tail : (bit_and c 0xc0 == 0x80) ≡ between 0x80 0xc0 c
  pub upper_tail : (bit_and c 0xe0 == 0xa0) ≡ between 0xa0 0xc0 c
  pub lower_tail : (bit_and c 0xf0 == 0x80) ≡ between 0x80 0x90 c
  -- not `between 0x90 0xc0 c`
  pub middle_tail : (bit_and c 0xd0 == 0x90) ≡ (between 0x90 0xa0 c || between 0xb0 0xc0 c)

module _ (mask value : ℕ) (range : ℕ → Bool) where
  by_table :
      passes (λ c. agree (bit_and c mask == value) (range c)) 256 ≡ true
      → (c : ℕ) → c < 256
      → (bit_and c mask == value) ≡ range c
  by_table table c h = agree→eq _ _ (passes-at _ 256 c table h)

pub ranges : (c : ℕ) → c < 256 → Ranges c
unfolding passes
ranges c h = record {
  lead2 = by_table 0xe0 0xc0 (between 0xc0 0xe0) refl c h;
  lead3 = by_table 0xf0 0xe0 (between 0xe0 0xf0) refl c h;
  lead4 = by_table 0xf8 0xf0 (between 0xf0 0xf8) refl c h;
  lead5 = by_table 0xf8 0xf8 (between 0xf8 0x100) refl c h;
  tail = by_table 0xc0 0x80 (between 0x80 0xc0) refl c h;
  upper_tail = by_table 0xe0 0xa0 (between 0xa0 0xc0) refl c h;
  lower_tail = by_table 0xf0 0x80 (between 0x80 0x90) refl c h;
  middle_tail = by_table 0xd0 0x90 (λ c. between 0x90 0xa0 c || between 0xb0 0xc0 c) refl c h;
}
