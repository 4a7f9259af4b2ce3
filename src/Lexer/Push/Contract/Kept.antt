-- ===== src/Lexer/Push/Contract/Kept.antt =====
-- `embedjson_lexer_push` and `embedjson_lexer_finalize` as a whole keep the contract with their
-- handlers.
use embedjson.Base.{
  ℕ, zero, suc, ◌≤◌, ◌≡◌, refl, sym, Bool, true, false, List, Option, none, some, ◌||◌, length,
  if◌then◌else◌, arith,
}
use embedjson.Common.{Outcome, ret, fault}
use embedjson.Config.{Config}
use embedjson.Lexer.Double.{Doubles}
use embedjson.Lexer.Push.Contract.Loop.{loop-Settles}
use embedjson.Lexer.Push.Contract.Numbers.{final_fraction-some, scale-some}
use embedjson.Lexer.Push.Contract.Strings.{flush_string-Within}
use embedjson.Lexer.Push.Contract.Turns.{Good, Safe, HasChunk, if_split}
use embedjson.Lexer.Push.Contract.{
  Contract, run_after, runs_within, IsLimit, frac_bound, exp_bound, Held, Ready, Within, Fails,
}
use embedjson.Lexer.Push.Termination.{Forward}
use embedjson.Lexer.Push.{
  push, finalize, finalize_in, final_double, start, ending, flush_rest, with_status, is_in_string,
}
use embedjson.Lexer.Step.{Loop, Turn, next, back, stop, crash, flush_string}
use embedjson.Lexer.{
  LexerState, lookup_token, in_string, in_number, in_number_frac, in_number_exp, in_big_number,
  Lexer, Sink,
}
use mathlib.Core.Path.{subst}

in_string_eq : (st : LexerState) → is_in_string st ≡ true → st ≡ in_string
in_string_eq in_string e = refl
in_string_eq _ e = absurd (cc e)

chunk_at_start :
    (st : LexerState) (b : Bool) → HasChunk st (if is_in_string st || b then some 0 else none)
chunk_at_start in_string b = tt
chunk_at_start _ b = tt

pub Fails-Within : {A : Type 0} (Q : A → Type 0) (m : Outcome A) → Fails m → Within Q m
Fails-Within Q (ret zero a) h = absurd h
Fails-Within Q (ret (suc e) a) h = tt
Fails-Within Q fault h = absurd h

pub Within-map :
    {A : Type 0} (Q R : A → Type 0) (m : Outcome A)
    → ((a : A) → Q a → R a)
    → Within Q m
    → Within R m
Within-map Q R (ret zero a) k h = k a h
Within-map Q R (ret (suc e) a) k h = tt
Within-map Q R fault k h = absurd h

with_status-Within :
    {S : Type 0} (Q : S → Type 0) (P : Lexer × S → Type 0) (old new : Lexer) (m : Outcome S)
    → ((s : S) → Q s → P (new, s))
    → Within Q m
    → Within P (with_status old new m)
with_status-Within Q P old new (ret zero s) k h = k s h
with_status-Within Q P old new (ret (suc e) s) k h = tt
with_status-Within Q P old new fault k h = absurd h

module _ {S D : Type 0} {Idle Open : S → Type 0} (cfg : Config) (fl : Doubles D) (sink : Sink S D)
    (con : Contract sink Idle Open) (no_bignum : cfg.bignum ≡ false) where
  flush_rest-Within :
      (buf : List ℕ) (i r : ℕ) (v : Loop) (s : S)
      → Good Idle Open r v s
      → Within (λ s'. Ready Idle Open r v.lex s') (flush_rest cfg fl sink buf i v s)
  unfolding flush_rest
  flush_rest-Within buf i r v s h =
      if_split (Within (λ s'. Ready Idle Open r v.lex s')) (is_in_string v.lex.state) _ _
        (λ inside.
          let e = in_string_eq v.lex.state inside in
          Within-map Open (λ s'. Ready Idle Open r v.lex s') (flush_string sink buf v.chunk i s)
            (λ s' op. record {
              frac_le = h.ready.frac_le;
              exp_le = h.ready.exp_le;
              value_fits = h.ready.value_fits;
              word_fits = h.ready.word_fits;
              held = subst (λ st. Held Idle Open st s') (sym e) op;
            })
            (flush_string-Within cfg sink con r i 0 buf v.chunk s
              (subst (λ st. HasChunk st v.chunk) e h.chunk)
              (subst (λ st. Held Idle Open st s) e h.ready.held)))
        (λ outside. rw no_bignum h.ready)

  ending-Within :
      (old : Lexer) (buf : List ℕ) (size r : ℕ) (t : Turn S)
      → Safe Idle Open r t
      → Forward t
      → Within (λ o. Ready Idle Open r o.0 o.1) (ending cfg fl sink old buf size t)
  unfolding ending
  ending-Within old buf size r (next v s) h f =
      with_status-Within (λ s'. Ready Idle Open r v.lex s') (λ o. Ready Idle Open r o.0 o.1) old
        v.lex _ (λ s' g. g) (flush_rest-Within buf size r v s h)
  ending-Within old buf size r (back v s) h f = absurd f
  ending-Within old buf size r (stop zero s) h f = absurd h
  ending-Within old buf size r (stop (suc e) s) h f = tt
  ending-Within old buf size r crash h f = absurd h

  -- On a sink that keeps the contract and a lexer that is ready, `embedjson_lexer_push` faults
  -- nowhere, and where it returns 0 the lexer is ready again: inside a string exactly between the
  -- calls of `embedjson_tokenc_begin` and `embedjson_tokenc_end`. EMBEDJSON_BIGNUM is off, and no run of
  -- digits in the input is longer than the limit: at most 323, and, where `embedjson_int_t` is signed and
  -- has 32 bits or more, such that 10 to the limit plus 47 is at most EMBEDJSON_INT_MAX (18 by default).
  pub push-Ready :
      (limit q : ℕ) (lex : Lexer) (s : S) (buf : List ℕ)
      → IsLimit cfg limit
      → Ready Idle Open q lex s
      → runs_within limit q buf ≡ true
      → (r : Outcome (Lexer × S)) × (push cfg fl sink lex s buf ≡ some r)
        × Within (λ o. Ready Idle Open (run_after q buf) o.0 o.1) r
  unfolding push
  push-Ready limit q lex s buf lim h w =
      let good : Good Idle Open q (start cfg lex) s = record {
        ready = h;
        chunk = chunk_at_start lex.state _;
      } in
      let (t, e, safe, f) =
        loop-Settles cfg fl sink con no_bignum limit lim buf buf 0 q (start cfg lex) s w good in
      (
        ending cfg fl sink lex buf (length buf) t,
        rw (e, push),
        ending-Within lex buf (length buf) (run_after q buf) t safe f,
      )

  final_double-Within :
      (lex : Lexer) (o : Option D) (x : D) (s : S)
      → o ≡ some x
      → Idle s
      → Within Idle (final_double cfg fl sink lex o s)
  unfolding final_double
  final_double-Within lex o x s e idle = rw e (con.tokenf_kept _ _ s idle)

  finalize_in-Within :
      (st : LexerState) (q : ℕ) (lex : Lexer) (s : S)
      → q ≤ 323
      → lex.frac_power ≤ frac_bound q st
      → lex.exp_value ≤ exp_bound lex.exp_minus
      → Held Idle Open st s
      → Within Idle (finalize_in cfg fl sink st lex s)
  unfolding finalize_in
  finalize_in-Within lookup_token q lex s le f x held = held
  finalize_in-Within in_number q lex s le f x held = con.tokeni_kept _ _ s held
  finalize_in-Within in_number_frac q lex s le f x held =
      let (y, e) = final_fraction-some fl lex (omega (arith, le, f)) in
      final_double-Within lex _ y s e held
  finalize_in-Within in_number_exp q lex s le f x held =
      let (y, e) = final_fraction-some fl lex (omega (arith, le, f)) in
      let (z, d) = scale-some fl lex y lex.exp_minus refl x in
      final_double-Within lex _ z s (rw (e, d) refl) held
  finalize_in-Within in_big_number q lex s le f x held = absurd held
  finalize_in-Within _ q lex s le f x held = Fails-Within Idle _ (con.error_fails _ _ s)

  -- `embedjson_lexer_finalize` on a lexer that is ready faults nowhere, and where it returns 0 the
  -- sink is between two tokens.
  pub finalize-Ready :
      (q : ℕ) (lex : Lexer) (s : S)
      → Ready Idle Open q lex s
      → q ≤ 323
      → Within Idle (finalize cfg fl sink lex s)
  unfolding finalize
  finalize-Ready q lex s h le = finalize_in-Within lex.state q lex s le h.frac_le h.exp_le h.held
