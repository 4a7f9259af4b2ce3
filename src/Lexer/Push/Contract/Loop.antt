-- ===== src/Lexer/Push/Contract/Loop.antt =====
-- The loop of `embedjson_lexer_push` and `embedjson_lexer_finalize` keep the contract.
use embedjson.Base.{
  ℕ, zero, suc, ◌+◌, ◌≤◌, ◌≡◌, refl, ap, ◌∙◌, Bool, true, false, List, [], ◌∷◌, Option, some, ◌&&◌,
  leb, arith,
}
use embedjson.Config.{Config}
use embedjson.Lexer.Double.{Doubles}
use embedjson.Lexer.Encoding.{sniff}
use embedjson.Lexer.Push.Contract.Numbers.{
  tens_pos, number_sign-Safe, number-Safe, number_frac-Safe, number_exp_sign-Safe, number_exp-Safe,
}
use embedjson.Lexer.Push.Contract.Strings.{
  lookup-Safe, string-Safe, escaped-Safe, unicode_escaped-Safe,
}
use embedjson.Lexer.Push.Contract.Turns.{
  Good, Safe, HasChunk, Plain, Good-sniff, Good-at, sniff-state,
}
use embedjson.Lexer.Push.Contract.Words.{true-Safe, false-Safe, null-Safe}
use embedjson.Lexer.Push.Contract.{
  Contract, run, run_after, runs_within, frac_bound, tens, IsLimit, ValueFits, WordFits, Held,
}
use embedjson.Lexer.Push.Termination.{Forward, at_lookup-Forward, repeated-Forward}
use embedjson.Lexer.Push.{body_in, body, repeated, advanced, byte_rounds, bytes_loop}
use embedjson.Lexer.Step.Text.{string_escape, string_unicode_escape}
use embedjson.Lexer.Step.{Loop, Turn, next, back, stop, crash, with_lexer, is_digit}
use embedjson.Lexer.{
  LexerState, lookup_token, in_string, in_string_escape, in_string_unicode_escape, in_number_sign,
  in_number, in_number_frac, in_number_exp_sign, in_number_exp, in_big_number, in_true, in_false,
  in_null, Sink,
}
use mathlib.Core.Path.{subst}

room : (q c : ℕ) → is_digit c ≡ true → 10 ≤ tens (run q c)
room q c d = rw d (omega (arith, tens_pos q))

pub runs_within-le : (limit q : ℕ) (bytes : List ℕ) → runs_within limit q bytes ≡ true → q ≤ limit
unfolding runs_within
runs_within-le limit q [] h = ground arith
runs_within-le limit q (c ∷ cs) h = ground arith

both : (a b : Bool) → (a && b) ≡ true → (a ≡ true) × (b ≡ true)
both a b h = ground arith

module _ {S D : Type 0} {Idle Open : S → Type 0} (cfg : Config) (fl : Doubles D) (sink : Sink S D)
    (con : Contract sink Idle Open) (no_bignum : cfg.bignum ≡ false) (limit : ℕ)
    (lim : IsLimit cfg limit) where
  -- What is known of a lexer whose state is known.
  module _ {q : ℕ} {v : Loop} {s : S} (h : Good Idle Open q v s) (st : LexerState)
      (e : v.lex.state ≡ st) where
    Held-in : Held Idle Open st s
    Held-in = subst (λ st. Held Idle Open st s) e h.ready.held

    word_in : WordFits st v.lex.offset
    word_in = subst (λ st. WordFits st v.lex.offset) e h.ready.word_fits

    chunk_in : HasChunk st v.chunk
    chunk_in = subst (λ st. HasChunk st v.chunk) e h.chunk

    frac_in : v.lex.frac_power ≤ frac_bound q st
    frac_in = subst (λ st. v.lex.frac_power ≤ frac_bound q st) e h.ready.frac_le

    value_in : ValueFits q st v.lex.int_value
    value_in = subst (λ st. ValueFits q st v.lex.int_value) e h.ready.value_fits

    Plain-in :
        frac_bound q st ≡ 0
        → (ValueFits q st v.lex.int_value → v.lex.int_value ≡ 0)
        → Plain st v.lex
    Plain-in b z = record {
      state_eq = e;
      frac_le = omega (arith, b, frac_in);
      exp_le = h.ready.exp_le;
      value_eq = z value_in;
    }

  body_in-Safe :
      (st : LexerState) (buf : List ℕ) (i c q : ℕ) (v : Loop) (s : S)
      → q ≤ limit
      → run q c ≤ limit
      → v.lex.state ≡ st
      → Good Idle Open q v s
      → Safe Idle Open (run q c) (body_in cfg fl sink st buf i c v s)
  unfolding body_in string_escape string_unicode_escape
  body_in-Safe lookup_token buf i c q v s le more e h =
      lookup-Safe cfg sink con (run q c) i c v s (room q c)
        (Plain-in h lookup_token e refl (λ z. z)) (Held-in h lookup_token e)
  body_in-Safe in_string buf i c q v s le more e h =
      string-Safe cfg sink con (run q c) i c buf v s (Plain-in h in_string e refl (λ z. z))
        (chunk_in h in_string e) (Held-in h in_string e)
  body_in-Safe in_string_escape buf i c q v s le more e h =
      escaped-Safe cfg sink con (run q c) i c v s _ (Plain-in h in_string_escape e refl (λ z. z))
        (Held-in h in_string_escape e)
  body_in-Safe in_string_unicode_escape buf i c q v s le more e h =
      unicode_escaped-Safe cfg sink con (run q c) i c v s _
        (Plain-in h in_string_unicode_escape e refl (λ z. z)) (Held-in h in_string_unicode_escape e)
  body_in-Safe in_number_sign buf i c q v s le more e h =
      number_sign-Safe cfg fl sink con (run q c) i c v s (Held-in h in_number_sign e) (room q c)
        (Plain-in h in_number_sign e refl (λ z. z))
  body_in-Safe in_number buf i c q v s le more e h =
      number-Safe cfg fl sink con (run q c) i c v s (Held-in h in_number e) limit q lim no_bignum
        refl more e (frac_in h in_number e) h.ready.exp_le (value_in h in_number e)
  body_in-Safe in_number_frac buf i c q v s le more e h =
      number_frac-Safe cfg fl sink con (run q c) i c v s (Held-in h in_number_frac e) q refl
        (omega (arith, lim.table)) e (frac_in h in_number_frac e) h.ready.exp_le
  body_in-Safe in_number_exp_sign buf i c q v s le more e h =
      number_exp_sign-Safe cfg fl sink con (run q c) i c v s (Held-in h in_number_exp_sign e) e
        (frac_in h in_number_exp_sign e) h.ready.exp_le
  body_in-Safe in_number_exp buf i c q v s le more e h =
      number_exp-Safe cfg fl sink con (run q c) i c v s (Held-in h in_number_exp e) e
        (frac_in h in_number_exp e) h.ready.exp_le
  body_in-Safe in_big_number buf i c q v s le more e h = absurd (Held-in h in_big_number e)
  body_in-Safe in_true buf i c q v s le more e h =
      true-Safe sink con (run q c) i c v s (Held-in h in_true e)
        (Plain-in h in_true e refl (λ z. z)) (word_in h in_true e)
  body_in-Safe in_false buf i c q v s le more e h =
      false-Safe sink con (run q c) i c v s (Held-in h in_false e)
        (Plain-in h in_false e refl (λ z. z)) (word_in h in_false e)
  body_in-Safe in_null buf i c q v s le more e h =
      null-Safe sink con (run q c) i c v s (Held-in h in_null e)
        (Plain-in h in_null e refl (λ z. z)) (word_in h in_null e)

  body-Safe :
      (buf : List ℕ) (i c q : ℕ) (v : Loop) (s : S)
      → q ≤ limit
      → run q c ≤ limit
      → Good Idle Open q v s
      → Safe Idle Open (run q c) (body cfg fl sink buf i c v s)
  unfolding body
  body-Safe buf i c q v s le more h =
      body_in-Safe v.lex.state buf i c q (with_lexer v (sniff v.lex c)) s le more
        (sniff-state Idle Open v.lex c) (Good-sniff Idle Open q c v s h)

  -- An end of the iterations on one byte.
  abbrev Settles : ℕ → Option (Turn S) → Type 0
  Settles r o = (t : Turn S) × (o ≡ some t) × Safe Idle Open r t × Forward t

  repeated-Settles :
      (r : ℕ) (t : Turn S) (again : Loop → S → Option (Turn S))
      → Safe Idle Open r t
      → ((v : Loop) (s : S)
          → v.lex.state ≡ lookup_token
          → Good Idle Open r v s
          → Settles r (again v s))
      → Settles r (repeated t again)
  repeated-Settles r (next v s) again h k = (next v s, refl, h, tt)
  repeated-Settles r (back v s) again h k = k v s h.0 h.1
  repeated-Settles r (stop code s) again h k = (stop code s, refl, h, tt)
  repeated-Settles r crash again h k = absurd h

  advanced-Settles :
      (r z : ℕ) (t : Turn S) (rest : Loop → S → Option (Turn S))
      → Safe Idle Open r t
      → Forward t
      → ((v : Loop) (s : S) → Good Idle Open r v s → Settles z (rest v s))
      → Settles z (advanced (some t) rest)
  advanced-Settles r z (next v s) rest h f k = k v s h
  advanced-Settles r z (back v s) rest h f k = absurd f
  advanced-Settles r z (stop zero s) rest h f k = absurd h
  advanced-Settles r z (stop (suc e) s) rest h f k = (stop (suc e) s, refl, tt, tt)
  advanced-Settles r z crash rest h f k = absurd h

  -- In front of a token the digits before it do not count.
  Good-lookup :
      (q r : ℕ) (v : Loop) (s : S)
      → v.lex.state ≡ lookup_token
      → Good Idle Open r v s
      → Good Idle Open q v s
  Good-lookup q r v s e h =
      Good-at Idle Open q v s lookup_token e (frac_in h lookup_token e) h.ready.exp_le
        (value_in h lookup_token e) tt (Held-in h lookup_token e) tt

  second_round :
      (buf : List ℕ) (i c q : ℕ) (v : Loop) (s : S)
      → q ≤ limit
      → run q c ≤ limit
      → v.lex.state ≡ lookup_token
      → Good Idle Open (run q c) v s
      → Settles (run q c) (byte_rounds cfg fl sink 1 buf i c v s)
  unfolding byte_rounds body
  second_round buf i c q v s le more e h =
      let f =
        at_lookup-Forward cfg fl sink v.lex.state buf i c (with_lexer v (sniff v.lex c)) s e in
      (
        body cfg fl sink buf i c v s,
        repeated-Forward _ _ f,
        body-Safe buf i c q v s le more (Good-lookup q (run q c) v s e h),
        f,
      )

  two_rounds :
      (buf : List ℕ) (i c q : ℕ) (v : Loop) (s : S)
      → q ≤ limit
      → run q c ≤ limit
      → Good Idle Open q v s
      → Settles (run q c) (byte_rounds cfg fl sink 2 buf i c v s)
  unfolding byte_rounds
  two_rounds buf i c q v s le more h =
      repeated-Settles (run q c) (body cfg fl sink buf i c v s)
        (λ v' s'. byte_rounds cfg fl sink 1 buf i c v' s') (body-Safe buf i c q v s le more h)
        (λ v' s' e g. second_round buf i c q v' s' le more e g)

  pub loop-Settles :
      (buf rest : List ℕ) (i q : ℕ) (v : Loop) (s : S)
      → runs_within limit q rest ≡ true
      → Good Idle Open q v s
      → Settles (run_after q rest) (bytes_loop cfg fl sink buf rest i v s)
  unfolding bytes_loop runs_within run_after
  loop-Settles buf [] i q v s w h = (next v s, refl, h, tt)
  loop-Settles buf (c ∷ cs) i q v s w h =
      let (small, more) = both (leb q limit) _ w in
      let (t, e, safe, f) =
        two_rounds buf i c q v s (ground arith)
          (ground (arith, runs_within-le limit (run q c) cs more)) h in
      let (t', e', safe', f') =
        advanced-Settles (run q c) (run_after (run q c) cs) t
          (λ v' s'. bytes_loop cfg fl sink buf cs (i + 1) v' s') safe f
          (λ v' s' g. loop-Settles buf cs (i + 1) (run q c) v' s' more g) in
      (
        t',
        ap (λ o. advanced o (λ v' s'. bytes_loop cfg fl sink buf cs (i + 1) v' s')) e ∙ e',
        safe',
        f',
      )
