-- ===== src/Lint/Growth.antt =====
-- The dynamic stack that `embedjson_stack_overflow` of embedjson_lint.c grows.
use embedjson.Base.{
  ℕ, zero, suc, ◌+◌, ◌*◌, ◌/◌, ◌%◌, ◌≤◌, ◌<◌, ◌≡◌, ◌≢◌, refl, ap, ◌∙◌, true, false, List, ◌∷◌,
  Option, none, some, length, get_elem?, get_elem?-of_ge, arith,
}
use embedjson.Common.{ret, fault}
use embedjson.Config.{Config, size_mod}
use embedjson.Lint.{Lint, minus_one, lint_client, lint_overflow, reallocated}
use embedjson.Parser.Stack.Laws.{HasStack, brackets, stack_full-eq}
use embedjson.Parser.Stack.Push.{stack_push-grows}
use embedjson.Parser.Stack.Refine.{Bytes, contents, bit_of}
use embedjson.Parser.Stack.{stack_full, stack_push, stack_write}
use embedjson.Parser.{Bracket, Parser}
use mathlib.Core.Path.{ap₂}

-- What the C library says of `realloc` where it enlarges a block: it gives a block of the new size
-- that starts with the bytes of the old one, or the null pointer.
abbrev pub Reallocates : (List ℕ → ℕ → Option (List ℕ)) → Type 0
Reallocates realloc =
    (stack new : List ℕ) (n : ℕ)
    → length stack ≤ n
    → realloc stack n ≡ some new
    → (length new ≡ n)
      × ((i : ℕ) → i < length stack → get_elem? new i ≡ get_elem? stack i)
      × (Bytes stack → Bytes new)

contents-same :
    (new stack : List ℕ) (n : ℕ)
    → ((i : ℕ) → i < length stack → get_elem? new i ≡ get_elem? stack i)
    → n ≤ 8 * length stack
    → contents new n ≡ contents stack n
contents-same new stack zero h le = refl
contents-same new stack (suc n) h le =
    ap₂ ◌∷◌ (ap (λ o. bit_of o (n % 8)) (h (n / 8) (omega arith)))
      (contents-same new stack n h (omega arith))

module _ {D : Type 0} (cfg : Config) (realloc : List ℕ → ℕ → Option (List ℕ)) (v : Bracket)
    (p : Parser (Lint D)) (dynamic : cfg.dynamic_stack ≡ true) where
  lint_overflow-eq :
      (n : ℕ) (o : Option (List ℕ))
      → (2 * p.stack_capacity + 1) % size_mod ≡ n
      → realloc p.stack n ≡ o
      → lint_overflow realloc p.stack p.stack_size p.stack_capacity p.user
        ≡ reallocated p.stack p.stack_capacity n p.user o
  unfolding lint_overflow
  lint_overflow-eq n o e found =
      ap (λ n. reallocated p.stack p.stack_capacity n p.user (realloc p.stack n)) e
      ∙ ap (reallocated p.stack p.stack_capacity n p.user) found

  refused :
      HasStack cfg p
      → p.stack_size ≡ 8 * length p.stack
      → lint_overflow realloc p.stack p.stack_size p.stack_capacity p.user
        ≡ (minus_one, p.stack, p.stack_capacity, p.user)
      → stack_push cfg (lint_client realloc) v p ≡ ret minus_one p
  unfolding stack_push
  refused ok full e = ground (arith, stack_full-eq p ok)

  -- With `embedjson_stack_overflow` of embedjson_lint.c, a full dynamic stack of at most 15 bytes is
  -- enlarged: where `realloc` finds the memory the bracket is pushed before those that are open, and
  -- the new stack satisfies the invariant. Where it finds none the status is -1 and nothing is changed.
  pub stack_push-doubles :
      HasStack cfg p
      → Reallocates realloc
      → length p.stack ≤ 15
      → p.stack_size ≡ 8 * length p.stack
      → ((new : List ℕ)
          → realloc p.stack (2 * length p.stack + 1) ≡ some new
          → (q : Parser (Lint D)) × (stack_push cfg (lint_client realloc) v p ≡ ret 0 q)
            × (brackets q ≡ v ∷ brackets p)
            × HasStack cfg q)
        × (realloc p.stack (2 * length p.stack + 1) ≡ none
            → stack_push cfg (lint_client realloc) v p ≡ ret minus_one p)
  unfolding reallocated
  stack_push-doubles ok keeps small full =
      let cap_eq : p.stack_capacity ≡ length p.stack = ground (arith, ok.capacity_eq) in
      let size_eq : (2 * p.stack_capacity + 1) % size_mod ≡ 2 * length p.stack + 1 = omega arith in
      (
        λ new found.
            let (long, same, bytes) =
              keeps p.stack new (2 * length p.stack + 1) (omega arith) found in
            (stack_push-grows cfg (lint_client realloc) v p 0 (2 * length p.stack + 1) new p.user ok
                dynamic full (lint_overflow-eq (2 * length p.stack + 1) (some new) size_eq found)
                (omega arith) (omega arith) (omega arith) (bytes ok.bytes)
                (contents-same new p.stack p.stack_size same (omega arith))).0
              refl,
        λ lost. refused ok full (lint_overflow-eq (2 * length p.stack + 1) none size_eq lost),
      )

  -- A dynamic stack of 32 bytes or more is found full only where 8 times its length modulo 256 bits
  -- are taken, if at all. Where all its bits are taken, `embedjson_stack_overflow` is not called, and
  -- the next push accesses the byte behind the stack.
  pub dynamic-overrun :
      p.stack_capacity ≡ length p.stack
      → 32 ≤ length p.stack
      → (p.stack_size ≢ 8 * length p.stack % 256 → stack_full cfg p ≡ false)
        × (p.stack_size ≡ 8 * length p.stack → stack_push cfg (lint_client realloc) v p ≡ fault)
  unfolding stack_push stack_full stack_write
  dynamic-overrun cap large =
      (λ other. ground arith, λ taken. ground (arith, get_elem?-of_ge p.stack (p.stack_size / 8)))
