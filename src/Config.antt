-- ===== src/Config.antt =====
-- config.h.in and the macros of common.h: one value stands for one build of the library.
use embedjson.Base.{ℕ, ◌+◌, ◌-◌, ◌^◌, Bool, true, false}

-- `int_bits` is `8 * sizeof(embedjson_int_t)`, and `int_signed` says whether that type is signed.
pub record Config : Type 0 where
  pub debug : Bool
  pub dynamic_stack : Bool
  pub static_stack_size : ℕ
  pub validate_utf8 : Bool
  pub bignum : Bool
  pub int_bits : ℕ
  pub int_signed : Bool

-- The defaults of common.h.
abbrev pub default_config : Config
default_config = record {
  debug = false;
  dynamic_stack = false;
  static_stack_size = 16;
  validate_utf8 = true;
  bignum = false;
  int_bits = 64;
  int_signed = true;
}

-- EMBEDJSON_INT_MAX
unfoldable pub int_max : Config → ℕ
int_max cfg = 2 ^ (cfg.int_bits - 2) - 1 + 2 ^ (cfg.int_bits - 2)

-- `embedjson_size_t`, `unsigned long long` and `unsigned short` wrap at these numbers.
abbrev pub size_mod : ℕ
size_mod = 2 ^ 64

abbrev pub ull_mod : ℕ
ull_mod = 2 ^ 64

abbrev pub ushort_mod : ℕ
ushort_mod = 2 ^ 16
