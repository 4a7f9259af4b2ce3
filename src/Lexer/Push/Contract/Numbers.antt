-- ===== src/Lexer/Push/Contract/Numbers.antt =====
-- The iterations of `embedjson_lexer_push` in a number keep the contract, and read `powm10` within
-- its table where no run of digits is longer than the table.
use embedjson.Base.{
  ℕ, zero, suc, ◌+◌, ◌-◌, ◌*◌, ◌%◌, ◌≤◌, ◌<◌, ◌≡◌, refl, Bool, true, false, not, ◌&&◌, ◌||◌, Option,
  some, ltb, leb, ◌==◌, arith,
}
use embedjson.Config.{Config, ushort_mod}
use embedjson.Lexer.Double.{Doubles, fraction, final_fraction, scale}
use embedjson.Lexer.Double.Table.{powm10_lem}
use embedjson.Lexer.Push.Contract.Turns.{
  Safe, Plain, bind-Safe, give_up-Safe, if-Safe, either-Safe, Good-at, Safe-landed,
}
use embedjson.Lexer.Push.Contract.{Contract, run, exp_bound, IsLimit, tens}
use embedjson.Lexer.Step.Number.{
  number_sign, number, number_digit, overflows, number_frac, number_exp_sign, number_exp, hand_over,
  cleared_int, cleared_frac, cleared_exp, exponential, is_exp_mark,
}
use embedjson.Lexer.Step.{Loop, back, with_lexer, is_digit}
use embedjson.Lexer.{
  Lexer, lookup_token, in_number_sign, in_number, in_number_frac, in_number_exp_sign, in_number_exp,
  Sink,
}
use embedjson.Base.Ints.{pos, negated}

pub tens_pos : (n : ℕ) → 1 ≤ tens n
tens_pos zero = omega arith
tens_pos (suc n) = omega (arith, tens_pos n)

tens_mono : (m n : ℕ) → m ≤ n → tens m ≤ tens n
tens_mono zero zero h = omega arith
tens_mono zero (suc n) h = omega (arith, tens_mono zero n)
tens_mono (suc m) zero h = absurd (omega arith)
tens_mono (suc m) (suc n) h = omega (arith, tens_mono m n)

-- Within the limit the sum does not overflow.
overflows_within :
    (cfg : Config) (limit q c : ℕ) {n : ℕ}
    → IsLimit cfg limit
    → suc q ≤ limit
    → is_digit c ≡ true
    → n < tens q
    → overflows cfg n c ≡ false
unfolding overflows
overflows_within cfg limit q c lim le d h =
    let mono : tens (suc q) ≤ tens limit = tens_mono (suc q) limit le in
    let room = lim.sum in ground arith

module _ {D : Type 0} (fl : Doubles D) (lex : Lexer) where
  pub fraction-some : lex.frac_power ≤ 323 → (x : D) × (fraction fl lex ≡ some x)
  unfolding fraction
  fraction-some h =
      let e = (powm10_lem fl lex.frac_power).0 in
      let small : leb lex.frac_power 323 ≡ true = ground arith in
      (
        fl.add (fl.of_int (pos lex.int_value))
            (fl.mul (fl.of_ull lex.frac_value) (fl.literal (negated lex.frac_power))),
        rw (fraction, e, small) refl,
      )

  pub final_fraction-some : lex.frac_power ≤ 323 → (x : D) × (final_fraction fl lex ≡ some x)
  unfolding final_fraction
  final_fraction-some h =
      let e = (powm10_lem fl lex.frac_power).0 in
      let small : leb lex.frac_power 323 ≡ true = ground arith in
      (
        fl.add (fl.mul (fl.of_ull lex.frac_value) (fl.literal (negated lex.frac_power)))
            (fl.of_int (pos lex.int_value)),
        rw (final_fraction, e, small) refl,
      )

  pub scale-some :
      (x : D) (minus : Bool)
      → lex.exp_minus ≡ minus
      → lex.exp_value ≤ exp_bound minus
      → (y : D) × (scale fl lex x ≡ some y)
  unfolding scale
  scale-some x true m h =
      let e = (powm10_lem fl lex.exp_value).0 in
      let small : leb lex.exp_value 323 ≡ true = ground arith in
      (fl.mul x (fl.literal (negated lex.exp_value)), rw (scale, m, e, small) refl)
  scale-some x false m h =
      let e = (powm10_lem fl lex.exp_value).1 in
      let small : leb lex.exp_value 308 ≡ true = ground arith in
      (fl.mul x (fl.literal (pos lex.exp_value)), rw (scale, m, e, small) refl)

module _ {S D : Type 0} {Idle Open : S → Type 0} (cfg : Config) (fl : Doubles D) (sink : Sink S D)
    (con : Contract sink Idle Open) (r i c : ℕ) (v : Loop) (s : S) (idle : Idle s) where
  pub number_sign-Safe :
      (is_digit c ≡ true → 10 ≤ tens r)
      → Plain in_number_sign v.lex
      → Safe Idle Open r (number_sign sink i c v s)
  unfolding number_sign
  number_sign-Safe room h =
      if-Safe Idle Open r (is_digit c) _ _
        (λ d.
          let ten = room d in
          let nothing = h.value_eq in
          Good-at Idle Open r _ s in_number refl h.frac_le h.exp_le (ground arith) tt idle tt)
        (λ other. give_up-Safe Idle Open r _ (con.error_fails _ _ s))

  number_digit-Safe :
      (limit q : ℕ)
      → IsLimit cfg limit
      → cfg.bignum ≡ false
      → r ≡ suc q
      → r ≤ limit
      → is_digit c ≡ true
      → v.lex.state ≡ in_number
      → v.lex.frac_power ≤ 0
      → v.lex.exp_value ≤ exp_bound v.lex.exp_minus
      → v.lex.int_value < tens q
      → Safe Idle Open r (number_digit cfg sink i c v s)
  unfolding number_digit
  number_digit-Safe limit q lim no_bignum e le d st f x n =
      let taken : 10 * v.lex.int_value + c - b'0' < tens r = rw e (ground arith) in
      rw (overflows_within cfg limit q c lim (omega arith) d n, no_bignum) search
        (
          either-Safe Idle Open r,
          give_up-Safe Idle Open r,
          con.error_fails,
          idle,
          Good-at Idle Open r,
          tt,
          st,
          f,
          x,
          taken,
        )
        depth 20

  hand_over-Safe :
      (x : D) (after : Lexer)
      → Plain lookup_token after
      → Safe Idle Open r (hand_over fl sink i c v s (some x) after)
  unfolding hand_over
  hand_over-Safe x after h =
      bind-Safe Idle Open r Idle _ _ (con.tokenf_kept _ _ s idle)
        (λ s' idle'. Safe-landed Idle Open r (with_lexer v after) s' h idle')

  pub number-Safe :
      (limit q : ℕ)
      → IsLimit cfg limit
      → cfg.bignum ≡ false
      → r ≡ run q c
      → r ≤ limit
      → v.lex.state ≡ in_number
      → v.lex.frac_power ≤ 0
      → v.lex.exp_value ≤ exp_bound v.lex.exp_minus
      → v.lex.int_value < tens q
      → Safe Idle Open r (number cfg sink i c v s)
  unfolding number
  number-Safe limit q lim no_bignum e le st f x n =
      let zero_le : v.lex.frac_power ≤ r = omega (arith, f) in
      let small : v.lex.frac_power ≤ 323 = omega (arith, f) in
      let landed : (s' : S)
          → Idle s'
          → Safe Idle Open r (back (with_lexer v (cleared_int v.lex)) s') =
        λ s' idle'.
          Safe-landed Idle Open r _ s'
            (record { state_eq = refl; frac_le = f; exp_le = x; value_eq = refl }) idle' in
      if-Safe Idle Open r (is_digit c) _ _
        (λ d. number_digit-Safe limit q lim no_bignum (ground arith) le d st f x n)
        (λ other.
          search
            (
              either-Safe Idle Open r,
              bind-Safe Idle Open r Idle,
              con.tokeni_kept,
              landed,
              idle,
              Good-at Idle Open r,
              tt,
              zero_le,
              small,
              x,
            )
            depth 20)

  handed-Safe :
      (o : Option D) (x : D) (after : Lexer)
      → o ≡ some x
      → Plain lookup_token after
      → Safe Idle Open r (hand_over fl sink i c v s o after)
  handed-Safe o x after e h = rw e (hand_over-Safe x after h)

  pub number_frac-Safe :
      (q : ℕ)
      → r ≡ run q c
      → q ≤ 323
      → v.lex.state ≡ in_number_frac
      → v.lex.frac_power ≤ q
      → v.lex.exp_value ≤ exp_bound v.lex.exp_minus
      → Safe Idle Open r (number_frac fl sink i c v s)
  unfolding number_frac
  number_frac-Safe q e le st f x =
      if-Safe Idle Open r (is_digit c) _ _
        (λ digit. Good-at Idle Open r _ s in_number_frac st (ground arith) x tt tt idle tt)
        (λ other.
          either-Safe Idle Open r (v.lex.frac_power == 0) _ _
            (give_up-Safe Idle Open r _ (con.error_fails _ _ s))
            (either-Safe Idle Open r (is_exp_mark c) _ _
              (Good-at Idle Open r _ s in_number_exp_sign refl (omega (arith, f, le)) x tt tt idle
                tt)
              (let (y, p) = fraction-some fl v.lex (omega (arith, f, le)) in
                handed-Safe _ y (cleared_frac v.lex) p (record {
                  state_eq = refl;
                  frac_le = omega arith;
                  exp_le = x;
                  value_eq = refl;
                }))))

  pub number_exp_sign-Safe :
      v.lex.state ≡ in_number_exp_sign
      → v.lex.frac_power ≤ 323
      → v.lex.exp_value ≤ exp_bound v.lex.exp_minus
      → Safe Idle Open r (number_exp_sign sink i c v s)
  unfolding number_exp_sign
  number_exp_sign-Safe st f x =
      let wide : v.lex.exp_value ≤ 323 = ground arith in
      if-Safe Idle Open r (c == b'-') _ _
        (λ minus. Good-at Idle Open r _ s in_number_exp refl f wide tt tt idle tt)
        (λ other.
          if-Safe Idle Open r (is_digit c) _ _
            (λ digit. Good-at Idle Open r _ s in_number_exp refl f (ground arith) tt tt idle tt)
            (λ sign.
              either-Safe Idle Open r (not (c == b'+')) _ _
                (give_up-Safe Idle Open r _ (con.error_fails _ _ s))
                (Good-at Idle Open r _ s in_number_exp refl f x tt tt idle tt)))

  exponential-some :
      v.lex.frac_power ≤ 323
      → v.lex.exp_value ≤ exp_bound v.lex.exp_minus
      → (y : D) × (exponential fl sink i c v s ≡ some y)
  unfolding exponential
  exponential-some f x =
      let (y, p) = fraction-some fl v.lex f in
      let (z, q) = scale-some fl v.lex y v.lex.exp_minus refl x in (z, rw (exponential, p, q) refl)

  pub number_exp-Safe :
      v.lex.state ≡ in_number_exp
      → v.lex.frac_power ≤ 323
      → v.lex.exp_value ≤ exp_bound v.lex.exp_minus
      → Safe Idle Open r (number_exp fl sink i c v s)
  unfolding number_exp
  number_exp-Safe st f x =
      let e = (10 * v.lex.exp_value + c - b'0') % ushort_mod in
      let over = (v.lex.exp_minus && ltb 323 e) || (not v.lex.exp_minus && ltb 308 e) in
      if-Safe Idle Open r (is_digit c) _ _
        (λ digit.
          if-Safe Idle Open r over _ _ (λ far. give_up-Safe Idle Open r _ (con.error_fails _ _ s))
            (λ near. Good-at Idle Open r _ s in_number_exp st f (ground arith) tt tt idle tt))
        (λ other.
          either-Safe Idle Open r (not v.lex.exp_not_empty) _ _
            (give_up-Safe Idle Open r _ (con.error_fails _ _ s))
            (let (y, p) = exponential-some f x in
              handed-Safe _ y (cleared_exp v.lex) p (record {
                state_eq = refl;
                frac_le = omega arith;
                exp_le = omega arith;
                value_eq = refl;
              })))
