-- ===== src/Lexer/Push/Contract/Words.antt =====
-- The iterations of `embedjson_lexer_push` in a keyword keep the contract, and read no letter behind
-- the end of the literal.
use embedjson.Base.{
  ℕ, ◌+◌, ◌%◌, ◌≤◌, ◌<◌, ◌≡◌, refl, List, some, get_elem?, get_elem?-eq-get_or, get_or, length, ltb,
  ◌==◌, arith,
}
use embedjson.Common.{ErrorCode}
use embedjson.Lexer.Push.Contract.Turns.{
  Safe, HasChunk, Plain, bind-Safe, give_up-Safe, if-Safe, Good-at,
}
use embedjson.Lexer.Push.Contract.{Contract, frac_bound, WordFits, ValueFits, Held}
use embedjson.Lexer.Step.Keyword.{
  keyword_at, keyword_true, keyword_false, keyword_null, true_text, false_text, null_text,
}
use embedjson.Lexer.Step.{Loop}
use embedjson.Lexer.{LexerState, Token, lookup_token, in_true, in_false, in_null, Sink}

module _ {S D : Type 0} {Idle Open : S → Type 0} (sink : Sink S D) (con : Contract sink Idle Open)
    (r i c : ℕ) (v : Loop) (s : S) (idle : Idle s) where
  keyword_at-Safe :
      (st : LexerState) (expected last : ℕ) (code : ErrorCode) (t : Token)
      → Plain st v.lex
      → frac_bound r st ≡ 0
      → ((n : ℕ) → n ≤ last → WordFits st n)
      → ((n : ℕ) → n ≡ 0 → ValueFits r st n)
      → Held Idle Open st s
      → HasChunk st v.chunk
      → Safe Idle Open r (keyword_at sink i c v s (some expected) last code t)
  unfolding keyword_at
  keyword_at-Safe st expected last code t h b fits zero_fits held k =
      let offset = (v.lex.offset + 1) % 256 in
      if-Safe Idle Open r (c == expected) _ _
        (λ e.
          if-Safe Idle Open r (ltb last offset) _ _
            (λ past. bind-Safe Idle Open r Idle _ _ (con.token_kept t _ s idle) (λ s' idle'.
              Good-at Idle Open r _ s' lookup_token refl h.frac_le h.exp_le h.value_eq tt idle' tt))
            (λ inside.
              Good-at Idle Open r _ s st h.state_eq (omega (arith, h.frac_le)) h.exp_le
                (zero_fits _ h.value_eq) (fits offset (ground arith)) held k))
        (λ e. give_up-Safe Idle Open r _ (con.error_fails code _ s))

  keyword_in-Safe :
      (st : LexerState) (text : List ℕ) (last : ℕ) (code : ErrorCode) (t : Token)
      → Plain st v.lex
      → frac_bound r st ≡ 0
      → ((n : ℕ) → n ≤ last → WordFits st n)
      → ((n : ℕ) → n ≡ 0 → ValueFits r st n)
      → Held Idle Open st s
      → HasChunk st v.chunk
      → v.lex.offset < length text
      → Safe Idle Open r (keyword_at sink i c v s (get_elem? text v.lex.offset) last code t)
  keyword_in-Safe st text last code t h b fits zero_fits held k le =
      rw (get_elem?-eq-get_or text v.lex.offset 0 le)
        (keyword_at-Safe st (get_or text v.lex.offset 0) last code t h b fits zero_fits held k)

  pub true-Safe :
      Plain in_true v.lex → v.lex.offset < 4 → Safe Idle Open r (keyword_true sink i c v s)
  unfolding keyword_true
  true-Safe h le =
      keyword_in-Safe in_true true_text 3 _ _ h refl (λ n m. omega arith) (λ n e. e) idle tt
        (omega arith)

  pub false-Safe :
      Plain in_false v.lex → v.lex.offset < 5 → Safe Idle Open r (keyword_false sink i c v s)
  unfolding keyword_false
  false-Safe h le =
      keyword_in-Safe in_false false_text 4 _ _ h refl (λ n m. omega arith) (λ n e. e) idle tt
        (omega arith)

  pub null-Safe :
      Plain in_null v.lex → v.lex.offset < 4 → Safe Idle Open r (keyword_null sink i c v s)
  unfolding keyword_null
  null-Safe h le =
      keyword_in-Safe in_null null_text 3 _ _ h refl (λ n m. omega arith) (λ n e. e) idle tt
        (omega arith)
