-- ===== src/Parser/Stack/Push.antt =====
-- `stack_push` of parser.c with room, without, and where `max_size` is cut to an `unsigned char`.
use embedjson.Base.{
  ℕ, suc, ◌*◌, ◌%◌, ◌+◌, ◌≤◌, ◌<◌, ◌≡◌, refl, ap, ◌∙◌, true, false, List, ◌∷◌, some, length, arith,
}
use embedjson.Client.{Client}
use embedjson.Common.{ret, stack_overflow, null_position}
use embedjson.Config.{Config}
use embedjson.Parser.Stack.Laws.{
  HasStack, brackets, pushed, stack_full-eq, stack_write-eq, HasStack-pushed, brackets-pushed,
  stack_pop-eq, stack_top-eq,
}
use embedjson.Parser.Stack.Refine.{Bytes, contents}
use embedjson.Parser.Stack.{stack_full, stack_push, stack_top, stack_pop}
use embedjson.Parser.{Bracket, Parser, error}

module _ {U D : Type 0} (cfg : Config) (client : Client U D) (v : Bracket) (p : Parser U) where
  -- With room for another bit, `stack_push` returns 0 and changes only the stack and its size: the
  -- bracket is put before those that are open, `stack_top` then reads it back, and `stack_pop` leaves
  -- the old brackets open. The new stack satisfies the invariant.
  pub stack_push_refines :
      HasStack cfg p
      → p.stack_size < 8 * length p.stack
      → (q : Parser U) × (stack_push cfg client v p ≡ ret 0 q)
        × (brackets q ≡ v ∷ brackets p)
        × (stack_top q ≡ some v)
        × (brackets (stack_pop q) ≡ brackets p)
        × (q.state ≡ p.state)
        × (q.user ≡ p.user)
        × HasStack cfg q
  unfolding stack_push
  stack_push_refines ok h =
      let q = pushed v p in
      let fine = HasStack-pushed p ok v h in
      let both = brackets-pushed p ok v h in
      (
        q,
        ground (arith, stack_full-eq p ok, stack_write-eq p ok v h),
        both,
        stack_top-eq q fine p.stack_size refl ∙ ap some (cc both),
        ap brackets (stack_pop-eq q fine p.stack_size refl) ∙ cc both,
        refl,
        refl,
        fine,
      )

  -- A static stack with no room left reports EMBEDJSON_STACK_OVERFLOW at the null position and
  -- changes nothing else.
  pub stack_push-full :
      HasStack cfg p
      → cfg.dynamic_stack ≡ false
      → p.stack_size ≡ 8 * length p.stack
      → stack_push cfg client v p ≡ error client stack_overflow null_position p
  unfolding stack_push
  stack_push-full ok static full = ground (arith, stack_full-eq p ok)

  -- A static stack of 32 bytes or more reports EMBEDJSON_STACK_OVERFLOW as soon as 8 times its length
  -- modulo 256 brackets are open, though 256 bits or more of it are still free.
  pub stack_push-early :
      cfg.dynamic_stack ≡ false
      → cfg.static_stack_size ≡ length p.stack
      → 32 ≤ length p.stack
      → p.stack_size ≡ 8 * length p.stack % 256
      → (stack_push cfg client v p ≡ error client stack_overflow null_position p)
        × (p.stack_size + 256 ≤ 8 * length p.stack)
  unfolding stack_push stack_full
  stack_push-early static size large reached = (ground arith, omega arith)

  pub stack_push-grows :
      (code cap : ℕ) (stack : List ℕ) (u : U)
      → HasStack cfg p
      → cfg.dynamic_stack ≡ true
      → p.stack_size ≡ 8 * length p.stack
      → client.stack_overflow p.stack p.stack_size p.stack_capacity p.user ≡ (code, stack, cap, u)
      → cap ≡ length stack
      → length p.stack < length stack
      → length stack < 32
      → Bytes stack
      → contents stack p.stack_size ≡ brackets p
      → (code ≡ 0
          → (q : Parser U) × (stack_push cfg client v p ≡ ret 0 q)
            × (brackets q ≡ v ∷ brackets p)
            × HasStack cfg q)
        × ((e : ℕ)
            → code ≡ suc e
            → (q : Parser U) × (stack_push cfg client v p ≡ ret (suc e) q) × (q.user ≡ u))
  unfolding stack_push
  stack_push-grows code cap stack u ok dynamic full grown cap_eq larger small bytes same =
      let p' : Parser U = record p { stack = stack; stack_capacity = cap; user = u } in
      let ok' : HasStack cfg p' = record {
        capacity_eq = rw dynamic cap_eq;
        small = small;
        size_le = omega arith;
        bytes = bytes;
      } in
      (
        λ z. (
          pushed v p',
          ground (arith, stack_full-eq p ok, stack_write-eq p' ok' v (omega arith)),
          brackets-pushed p' ok' v (omega arith) ∙ ap (◌∷◌ v) same,
          HasStack-pushed p' ok' v (omega arith),
        ),
        λ e z. (p', ground (arith, stack_full-eq p ok), refl),
      )
