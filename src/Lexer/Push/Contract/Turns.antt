-- ===== src/Lexer/Push/Contract/Turns.antt =====
-- One iteration of the loop of `embedjson_lexer_push` that keeps the contract with the handlers.
use embedjson.Base.{
  set, ltb, ◌+◌, ◌≤◌, sym, ap, arith, List, ℕ, zero, suc, ◌≡◌, refl, Bool, true, false, Option,
  none, if◌then◌else◌,
}
use embedjson.Common.{Outcome, ret, fault}
use embedjson.Lexer.Encoding.{sniff, detect, as_int, is_unknown}
use embedjson.Lexer.Push.Contract.{
  Within, Fails, Ready, Held, WordFits, ValueFits, frac_bound, exp_bound,
}
use mathlib.Core.Path.{subst}
use embedjson.Lexer.Step.{Loop, Turn, next, back, stop, crash, ◌>>=◌, give_up, with_lexer}
use embedjson.Lexer.{LexerState, TextEncoding, in_string, lookup_token, Lexer}

-- `string_chunk_begin` is set inside a string.
abbrev pub HasChunk : LexerState → Option ℕ → Type 0
HasChunk in_string none = ⊥
HasChunk _ _ = Unit

-- What the loop knows in a state outside numbers.
pub record Plain (st : LexerState) (lex : Lexer) : Type 0 where
  pub state_eq : lex.state ≡ st
  pub frac_le : lex.frac_power ≤ 0
  pub exp_le : lex.exp_value ≤ exp_bound lex.exp_minus
  pub value_eq : lex.int_value ≡ 0

module _ {S : Type 0} (Idle Open : S → Type 0) where
  pub record Good (r : ℕ) (v : Loop) (s : S) : Type 0 where
    pub ready : Ready Idle Open r v.lex s
    pub chunk : HasChunk v.lex.state v.chunk

  -- The iteration does not crash, leaves such a lexer, and reads a byte again in
  -- LEXER_STATE_LOOKUP_TOKEN only.
  abbrev pub Safe : ℕ → Turn S → Type 0
  Safe r (next v s) = Good r v s
  Safe r (back v s) = (v.lex.state ≡ lookup_token) × Good r v s
  Safe r (stop zero s) = ⊥
  Safe r (stop (suc e) s) = Unit
  Safe r crash = ⊥

  pub bind-Safe :
      (r : ℕ) (Q : S → Type 0) (m : Outcome S) (f : S → Turn S)
      → Within Q m
      → ((s : S) → Q s → Safe r (f s))
      → Safe r (m >>= f)
  bind-Safe r Q (ret zero s) f h k = k s h
  bind-Safe r Q (ret (suc e) s) f h k = tt
  bind-Safe r Q fault f h k = absurd h

  pub give_up-Safe : (r : ℕ) (m : Outcome S) → Fails m → Safe r (give_up m)
  give_up-Safe r (ret zero s) h = absurd h
  give_up-Safe r (ret (suc e) s) h = tt
  give_up-Safe r fault h = absurd h

  pub if-Safe :
      (r : ℕ) (b : Bool) (x y : Turn S)
      → (b ≡ true → Safe r x)
      → (b ≡ false → Safe r y)
      → Safe r (if b then x else y)
  if-Safe r true x y p q = p refl
  if-Safe r false x y p q = q refl

  pub either-Safe :
      (r : ℕ) (b : Bool) (x y : Turn S) → Safe r x → Safe r y → Safe r (if b then x else y)
  either-Safe r true x y p q = p
  either-Safe r false x y p q = q

pub if_elim :
    {A : Type 0} (P : A → Type 0) (b : Bool) (x y : A) → P x → P y → P (if b then x else y)
if_elim P true x y p q = p
if_elim P false x y p q = q

pub if_split :
    {A : Type 0} (P : A → Type 0) (b : Bool) (x y : A)
    → (b ≡ true → P x)
    → (b ≡ false → P y)
    → P (if b then x else y)
if_split P true x y p q = p refl
if_split P false x y p q = q refl

-- The guess at the encoding touches only its own fields.
sniff_elim :
    (P : Lexer → Type 0) (lex : Lexer) (c : ℕ)
    → ((magic : List ℕ) (n : ℕ) (encoding : TextEncoding)
        → P (record lex { magic = magic; magic_bytes_read = n; encoding = encoding }))
    → P (sniff lex c)
unfolding sniff
sniff_elim P lex c k =
    let read = record lex {
      magic = set lex.magic lex.magic_bytes_read c;
      magic_bytes_read = lex.magic_bytes_read + 1;
    } in
    let found = record lex { encoding = detect (as_int lex.magic) } in
    if_elim P (ltb lex.magic_bytes_read 4) read (if is_unknown lex.encoding then found else lex)
      (k (set lex.magic lex.magic_bytes_read c) (lex.magic_bytes_read + 1) lex.encoding)
      (if_elim P (is_unknown lex.encoding) found lex
        (k lex.magic lex.magic_bytes_read (detect (as_int lex.magic)))
        (k lex.magic lex.magic_bytes_read lex.encoding))

module _ {S : Type 0} (Idle Open : S → Type 0) where
  pub Good-sniff :
      (r c : ℕ) (v : Loop) (s : S)
      → Good Idle Open r v s
      → Good Idle Open r (with_lexer v (sniff v.lex c)) s
  Good-sniff r c v s h =
      sniff_elim (λ lex. Good Idle Open r (with_lexer v lex) s) v.lex c
        λ magic n encoding. record {
          ready = record {
            frac_le = h.ready.frac_le;
            exp_le = h.ready.exp_le;
            value_fits = h.ready.value_fits;
            word_fits = h.ready.word_fits;
            held = h.ready.held;
          };
          chunk = h.chunk;
        }

  pub sniff-state : (lex : Lexer) (c : ℕ) → (sniff lex c).state ≡ lex.state
  sniff-state lex c = sniff_elim (λ l. l.state ≡ lex.state) lex c (λ magic n encoding. refl)

  -- A lexer whose state is known.
  pub Good-at :
      (r : ℕ) (w : Loop) (s : S) (st : LexerState)
      → w.lex.state ≡ st
      → w.lex.frac_power ≤ frac_bound r st
      → w.lex.exp_value ≤ exp_bound w.lex.exp_minus
      → ValueFits r st w.lex.int_value
      → WordFits st w.lex.offset
      → Held Idle Open st s
      → HasChunk st w.chunk
      → Good Idle Open r w s
  Good-at r w s st e f x n k d c = record {
    ready = record {
      frac_le = omega (arith, ap (frac_bound r) e);
      exp_le = x;
      value_fits = subst (λ st. ValueFits r st w.lex.int_value) (sym e) n;
      word_fits = subst (λ st. WordFits st w.lex.offset) (sym e) k;
      held = subst (λ st. Held Idle Open st s) (sym e) d;
    };
    chunk = subst (λ st. HasChunk st w.chunk) (sym e) c;
  }

  pub Safe-landed :
      (r : ℕ) (w : Loop) (s : S) → Plain lookup_token w.lex → Idle s → Safe Idle Open r (back w s)
  Safe-landed r w s h idle =
      (h.state_eq, Good-at r w s lookup_token h.state_eq h.frac_le h.exp_le h.value_eq tt idle tt)
