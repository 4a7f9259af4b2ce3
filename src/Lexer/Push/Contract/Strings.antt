-- ===== src/Lexer/Push/Contract/Strings.antt =====
-- The iterations of `embedjson_lexer_push` in a string and in front of a token keep the contract.
use embedjson.Base.{
  ◌==◌, ◌<◌, ◌≤◌, ◌-◌, ◌≡◌, refl, true, if◌then◌else◌, ℕ, List, Option, none, some, arith,
}
use embedjson.Common.{at, ret, unexp_symbol}
use embedjson.Config.{Config}
use embedjson.Lexer.Push.Contract.Turns.{
  Good, Safe, Plain, HasChunk, bind-Safe, give_up-Safe, if-Safe, either-Safe, Good-at, if_elim,
}
use embedjson.Lexer.Push.Contract.{Within, Contract, tens}
use embedjson.Lexer.Step.Lookup.{lookup}
use embedjson.Lexer.Step.Text.{
  string, string_checked, string_led, string_plain, escaped, unicode_escaped, unicode_digit,
}
use embedjson.Lexer.Step.{Loop, next, give_up, is_digit, with_lexer, slice, flush_string}
use embedjson.Lexer.Utf8.{continuation, Lead, lead, long, neither, leading}
use embedjson.Lexer.{
  LexerState, lookup_token, in_string, in_string_escape, in_string_unicode_escape, in_number, Lexer,
  Sink,
}

four : 1 < 4
four = omega arith

five : 1 < 5
five = omega arith

-- A lexer that a test of a byte leaves, if it leaves one, is such a lexer.
abbrev LeadPlain : LexerState → Lead → Type 0
LeadPlain st (lead lex) = Plain st lex
LeadPlain st long = Unit
LeadPlain st (neither lex) = Plain st lex

abbrev OptionPlain : LexerState → Option Lexer → Type 0
OptionPlain st none = Unit
OptionPlain st (some lex) = Plain st lex

-- The tests of the bytes of UTF-8 touch only their own fields.
module _ {st : LexerState} {lex : Lexer} (h : Plain st lex) (c : ℕ) where
  Plain-char : (n k : ℕ) → Plain st (record lex { nb = n; cc = k })
  Plain-char n k = record {
    state_eq = h.state_eq;
    frac_le = h.frac_le;
    exp_le = h.exp_le;
    value_eq = h.value_eq;
  }

  leading-Plain : LeadPlain st (leading lex c)
  unfolding leading
  leading-Plain = search (if_elim (LeadPlain st), Plain-char, h, tt) depth 10

  continuation-Plain : OptionPlain st (continuation lex c)
  unfolding continuation
  continuation-Plain = search (if_elim (OptionPlain st), Plain-char, h, tt) depth 10

module _ {S D : Type 0} {Idle Open : S → Type 0} (cfg : Config) (sink : Sink S D)
    (con : Contract sink Idle Open) (r i c : ℕ) where
  -- The first digit of a number.
  first_digit :
      (v : Loop) (s : S)
      → (is_digit c ≡ true → 10 ≤ tens r)
      → Plain lookup_token v.lex
      → Idle s
      → Safe Idle Open r (
          if is_digit c
          then next (with_lexer v (record v.lex { int_value = c - b'0'; state = in_number })) s
          else give_up (sink.error_ex unexp_symbol (at i) s))
  first_digit v s room h idle =
      if-Safe Idle Open r (is_digit c) _ _
        (λ d.
          let ten = room d in
          Good-at Idle Open r _ s in_number refl h.frac_le h.exp_le (ground arith) tt idle tt)
        (λ other. give_up-Safe Idle Open r _ (con.error_fails _ _ s))

  pub lookup-Safe :
      (v : Loop) (s : S)
      → (is_digit c ≡ true → 10 ≤ tens r)
      → Plain lookup_token v.lex
      → Idle s
      → Safe Idle Open r (lookup sink i c v s)
  unfolding lookup
  lookup-Safe v s room h idle =
      let still : (s' : S) → Idle s' → Good Idle Open r v s' = λ s' d.
        Good-at Idle Open r v s' lookup_token h.state_eq h.frac_le h.exp_le h.value_eq tt d tt in
      search
        (
          first_digit v s room h idle,
          either-Safe Idle Open r,
          bind-Safe Idle Open r Idle,
          bind-Safe Idle Open r Open,
          give_up-Safe Idle Open r,
          con.token_kept,
          con.begin_kept,
          con.error_fails,
          still,
          idle,
          Good-at Idle Open r,
          tt,
          h.frac_le,
          h.exp_le,
          h.value_eq,
          four,
          five,
        )
        depth 20

  pub flush_string-Within :
      (buf : List ℕ) (chunk : Option ℕ) (s : S)
      → HasChunk in_string chunk
      → Open s
      → Within Open (flush_string sink buf chunk i s)
  unfolding flush_string
  flush_string-Within buf none s k opened = absurd k
  flush_string-Within buf (some b) s k opened =
      if_elim (Within Open) (i == b) (ret 0 s) (sink.tokenc (at b) (slice buf b i) s) opened
        (con.chunk_kept (at b) (slice buf b i) s opened)

  string_plain-Safe :
      (buf : List ℕ) (v : Loop) (s : S)
      → Plain in_string v.lex
      → HasChunk in_string v.chunk
      → Open s
      → Safe Idle Open r (string_plain cfg sink buf i c s v)
  unfolding string_plain
  string_plain-Safe buf v s h k opened =
      let still : Good Idle Open r v s =
        Good-at Idle Open r v s in_string h.state_eq h.frac_le h.exp_le h.value_eq tt opened k in
      search
        (
          either-Safe Idle Open r,
          bind-Safe Idle Open r Idle,
          bind-Safe Idle Open r Open,
          give_up-Safe Idle Open r,
          con.end_kept,
          con.error_fails,
          flush_string-Within,
          still,
          opened,
          k,
          Good-at Idle Open r,
          tt,
          h.frac_le,
          h.exp_le,
          h.value_eq,
        )
        depth 20

  string_led-Safe :
      (buf : List ℕ) (v : Loop) (s : S) (l : Lead)
      → LeadPlain in_string l
      → HasChunk in_string v.chunk
      → Open s
      → Safe Idle Open r (string_led cfg sink buf i c s v l)
  unfolding string_led
  string_led-Safe buf v s (lead lex) h k op =
      Good-at Idle Open r (with_lexer v lex) s in_string h.state_eq h.frac_le h.exp_le h.value_eq tt
        op k
  string_led-Safe buf v s long h k op = give_up-Safe Idle Open r _ (con.error_fails _ _ _)
  string_led-Safe buf v s (neither lex) h k op = string_plain-Safe buf (with_lexer v lex) s h k op

  string_checked-Safe :
      (buf : List ℕ) (v : Loop) (s : S) (o : Option Lexer)
      → OptionPlain in_string o
      → HasChunk in_string v.chunk
      → Open s
      → Safe Idle Open r (string_checked cfg sink buf i c s v o)
  unfolding string_checked
  string_checked-Safe buf v s none h k op = give_up-Safe Idle Open r _ (con.error_fails _ _ _)
  string_checked-Safe buf v s (some lex) h k op =
      string_led-Safe buf v s (leading lex c) (leading-Plain h c) k op

  pub string-Safe :
      (buf : List ℕ) (v : Loop) (s : S)
      → Plain in_string v.lex
      → HasChunk in_string v.chunk
      → Open s
      → Safe Idle Open r (string cfg sink buf i c s v)
  unfolding string
  string-Safe buf v s h k op =
      either-Safe Idle Open r cfg.validate_utf8 _ _
        (string_checked-Safe buf v s (continuation v.lex c) (continuation-Plain h c) k op)
        (string_plain-Safe buf v s h k op)

  pub escaped-Safe :
      (v : Loop) (s : S) (o : Option ℕ)
      → Plain in_string_escape v.lex
      → Open s
      → Safe Idle Open r (escaped sink i c v s o)
  unfolding escaped
  escaped-Safe v s none h op =
      search
        (
          either-Safe Idle Open r,
          give_up-Safe Idle Open r,
          con.error_fails,
          op,
          Good-at Idle Open r,
          tt,
          h.frac_le,
          h.exp_le,
          h.value_eq,
        )
        depth 20
  escaped-Safe v s (some b) h op =
      search
        (
          bind-Safe Idle Open r Open,
          con.chunk_kept,
          op,
          Good-at Idle Open r,
          tt,
          h.frac_le,
          h.exp_le,
          h.value_eq,
        )
        depth 20

  pub unicode_escaped-Safe :
      (v : Loop) (s : S) (o : Option ℕ)
      → Plain in_string_unicode_escape v.lex
      → Open s
      → Safe Idle Open r (unicode_escaped sink i c v s o)
  unfolding unicode_escaped unicode_digit
  unicode_escaped-Safe v s none h op = give_up-Safe Idle Open r _ (con.error_fails _ _ _)
  unicode_escaped-Safe v s (some b) h op =
      search
        (
          either-Safe Idle Open r,
          bind-Safe Idle Open r Open,
          con.chunk_kept,
          op,
          Good-at Idle Open r,
          tt,
          h.state_eq,
          h.frac_le,
          h.exp_le,
          h.value_eq,
        )
        depth 20
