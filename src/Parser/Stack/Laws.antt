-- ===== src/Parser/Stack/Laws.antt =====
-- `stack_push`, `stack_pop` and `stack_top` of parser.c act on the list of open brackets.
use embedjson.Base.{
  ℕ, suc, ◌+◌, ◌-◌, ◌*◌, ◌/◌, ◌%◌, ◌≤◌, ◌<◌, ◌≡◌, refl, ap, sym, ◌∙◌, List, ◌∷◌, some, length,
  get_elem?, get_elem?-eq-get_or, get_or, length-set, ◌==◌, arith,
}
use embedjson.Common.{ret}
use embedjson.Config.{Config, size_mod}
use embedjson.Parser.Stack.Refine.{
  Bytes, bracket_at, contents, written, contents-written, Bytes-written,
}
use embedjson.Parser.Stack.{
  write_bit, stack_empty, stack_pop, stack_top, stack_write, capacity, bracket_read, stack_full,
}
use embedjson.Parser.{Bracket, Parser}

-- The capacity is the length of the stack in bytes, and `max_size` of `stack_full` holds eight
-- times that.
pub record HasStack {U : Type 0} (cfg : Config) (p : Parser U) : Type 0 where
  pub capacity_eq : capacity cfg p ≡ length p.stack
  pub small : length p.stack < 32
  pub size_le : p.stack_size ≤ 8 * length p.stack
  pub bytes : Bytes p.stack

-- The open brackets, the innermost one first.
abbrev pub brackets : {U : Type 0} → Parser U → List Bracket
brackets p = contents p.stack p.stack_size

abbrev pub room : {U : Type 0} → Parser U → ℕ
room p = 8 * length p.stack - p.stack_size

module _ {U : Type 0} where
  pub stack_empty-lem : (p : Parser U) → stack_empty p ≡ (p.stack_size == 0)
  unfolding stack_empty
  stack_empty-lem p = refl

  -- The byte that holds the bit of the next bracket.
  abbrev pub top_byte : Parser U → ℕ
  top_byte p = get_or p.stack (p.stack_size / 8) 0

  -- What `stack_push` leaves where there is room.
  abbrev pub pushed : Bracket → Parser U → Parser U
  pushed v p = record p {
    stack = written v p.stack (top_byte p) p.stack_size;
    stack_size = suc p.stack_size;
  }

module _ {U : Type 0} {cfg : Config} (p : Parser U) (ok : HasStack cfg p) where
  pub stack_full-eq : stack_full cfg p ≡ (p.stack_size == 8 * length p.stack)
  unfolding stack_full
  stack_full-eq = ap (λ k. p.stack_size == k) (omega (arith, ok.capacity_eq, ok.small))

  pub stack_pop-eq : (n : ℕ) → p.stack_size ≡ suc n → stack_pop p ≡ record p { stack_size = n }
  unfolding stack_pop
  stack_pop-eq n e = ap (λ k. record p { stack_size = k }) (omega arith)

  pub stack_top-eq : (n : ℕ) → p.stack_size ≡ suc n → stack_top p ≡ some (bracket_at p.stack n)
  unfolding stack_top
  stack_top-eq n e =
      let at_n : (p.stack_size + size_mod - 1) % size_mod ≡ n = omega arith in
      ap (bracket_read p.stack) at_n
      ∙ rw (get_elem?-eq-get_or p.stack (n / 8) 0 (omega arith), bracket_read)

  module _ (v : Bracket) (h : p.stack_size < 8 * length p.stack) where
    at_top : get_elem? p.stack (p.stack_size / 8) ≡ some (top_byte p)
    at_top = get_elem?-eq-get_or p.stack (p.stack_size / 8) 0 (omega arith)

    pub stack_write-eq : stack_write v p ≡ ret 0 (pushed v p)
    unfolding stack_write
    stack_write-eq =
        rw (at_top, stack_write)
          (ap
            (λ k.
              ret 0
                (record p { stack = written v p.stack (top_byte p) p.stack_size; stack_size = k }))
            (omega arith))

    pub HasStack-pushed : HasStack cfg (pushed v p)
    HasStack-pushed = record {
      capacity_eq = ok.capacity_eq ∙ sym (length-set p.stack _ _);
      small = omega (
        arith,
        length-set p.stack (p.stack_size / 8) (write_bit v (top_byte p) (p.stack_size % 8)),
        ok.small,
      );
      size_le = omega (
        arith,
        length-set p.stack (p.stack_size / 8) (write_bit v (top_byte p) (p.stack_size % 8)),
      );
      bytes = Bytes-written v p.stack (top_byte p) p.stack_size ok.bytes at_top h;
    }

    pub brackets-pushed : brackets (pushed v p) ≡ v ∷ brackets p
    brackets-pushed = contents-written v p.stack (top_byte p) p.stack_size ok.bytes at_top h
