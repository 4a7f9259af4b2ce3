-- ===== src/Lexer/Push/Termination.antt =====
-- The loop of `embedjson_lexer_push` of lexer.c ends: a byte is read at most twice.
use embedjson.Base.{
  ℕ, zero, suc, ◌+◌, ◌≡◌, ◌∙◌, ap, refl, length, Bool, true, false, List, [], ◌∷◌, Option, none,
  some, if◌then◌else◌,
}
use embedjson.Common.{ErrorCode, bad_utf8, at, position_before, Outcome, ret, fault}
use embedjson.Config.{Config}
use embedjson.Lexer.Double.{Doubles, signed}
use embedjson.Lexer.Push.{
  body_in, body, repeated, advanced, byte_rounds, bytes_loop, push, start, ending,
}
use embedjson.Lexer.Step.{Loop, Turn, next, back, stop, crash, ◌>>=◌, give_up, with_lexer}
use embedjson.Lexer.Step.Lookup.{lookup}
use embedjson.Lexer.Step.Keyword.{keyword_at, keyword_true, keyword_false, keyword_null}
use embedjson.Lexer.Step.Number.{
  number_sign, number, number_digit, number_frac, number_exp_sign, number_exp, big_number,
  hand_over,
}
use embedjson.Lexer.Step.Text.{
  string, string_checked, string_led, string_plain, string_escape, escaped, string_unicode_escape,
  unicode_escaped, unicode_digit,
}
use embedjson.Lexer.Encoding.{sniff}
use embedjson.Lexer.Utf8.{Lead, lead, long, neither, leading}
use embedjson.Lexer.{
  LexerState, lookup_token, in_string, in_string_escape, in_string_unicode_escape, in_number_sign,
  in_number, in_number_frac, in_number_exp_sign, in_number_exp, in_big_number, in_true, in_false,
  in_null, Lexer, Token, Sink,
}

-- The iteration does not come back to its byte.
abbrev pub Forward : {S : Type 0} → Turn S → Type 0
Forward (back v s) = ⊥
Forward _ = Unit

-- An iteration that comes back has entered LEXER_STATE_LOOKUP_TOKEN.
abbrev Lands : {S : Type 0} → Turn S → Type 0
Lands (back v s) = v.lex.state ≡ lookup_token
Lands _ = Unit

module _ {S : Type 0} where
  >>=-Forward : (m : Outcome S) (f : S → Turn S) → ((s : S) → Forward (f s)) → Forward (m >>= f)
  >>=-Forward (ret zero s) f h = h s
  >>=-Forward (ret (suc e) s) f h = tt
  >>=-Forward fault f h = tt

  >>=-Lands : (m : Outcome S) (f : S → Turn S) → ((s : S) → Lands (f s)) → Lands (m >>= f)
  >>=-Lands (ret zero s) f h = h s
  >>=-Lands (ret (suc e) s) f h = tt
  >>=-Lands fault f h = tt

  give_up-Forward : (m : Outcome S) → Forward (give_up m)
  give_up-Forward (ret e s) = tt
  give_up-Forward fault = tt

  if-Forward : (b : Bool) (x y : Turn S) → Forward x → Forward y → Forward (if b then x else y)
  if-Forward true x y p q = p
  if-Forward false x y p q = q

  Forward-Lands : (t : Turn S) → Forward t → Lands t
  Forward-Lands (next v s) h = tt
  Forward-Lands (back v s) h = absurd h
  Forward-Lands (stop e s) h = tt
  Forward-Lands crash h = tt

  if-Lands : (b : Bool) (x y : Turn S) → Lands x → Lands y → Lands (if b then x else y)
  if-Lands true x y p q = p
  if-Lands false x y p q = q

  give_up-Lands : (m : Outcome S) → Lands (give_up m)
  give_up-Lands (ret e s) = tt
  give_up-Lands fault = tt

  pub repeated-Forward :
      (t : Turn S) (again : Loop → S → Option (Turn S)) → Forward t → repeated t again ≡ some t
  repeated-Forward (next v s) again h = refl
  repeated-Forward (back v s) again h = absurd h
  repeated-Forward (stop code s) again h = refl
  repeated-Forward crash again h = refl

  repeated-total :
      (t : Turn S) (again : Loop → S → Option (Turn S))
      → Lands t
      → ((v : Loop) (s : S)
          → v.lex.state ≡ lookup_token
          → (t' : Turn S) × (again v s ≡ some t') × Forward t')
      → (t' : Turn S) × (repeated t again ≡ some t') × Forward t'
  repeated-total (next v s) again h k = (next v s, refl, tt)
  repeated-total (back v s) again h k = k v s h
  repeated-total (stop code s) again h k = (stop code s, refl, tt)
  repeated-total crash again h k = (crash, refl, tt)

  advanced-total :
      (t : Turn S) (rest : Loop → S → Option (Turn S))
      → Forward t
      → ((v : Loop) (s : S) → (t' : Turn S) × (rest v s ≡ some t') × Forward t')
      → (t' : Turn S) × (advanced (some t) rest ≡ some t') × Forward t'
  advanced-total (next v s) rest h k = k v s
  advanced-total (back v s) rest h k = absurd h
  advanced-total (stop code s) rest h k = (stop code s, refl, tt)
  advanced-total crash rest h k = (crash, refl, tt)

ruleset lands = (if-Lands, >>=-Lands, give_up-Lands, tt, refl)

module _ {S D : Type 0} (cfg : Config) (fl : Doubles D) (sink : Sink S D) where
  lookup-Forward : (i c : ℕ) (v : Loop) (s : S) → Forward (lookup sink i c v s)
  unfolding lookup
  lookup-Forward i c v s = search (if-Forward, >>=-Forward, give_up-Forward, tt) depth 20

  string_led-Lands :
      (buf : List ℕ) (i c : ℕ) (s : S) (v : Loop) (l : Lead)
      → Lands (string_led cfg sink buf i c s v l)
  unfolding string_led string_plain
  string_led-Lands buf i c s v (lead lex) = tt
  string_led-Lands buf i c s v long = give_up-Lands _
  string_led-Lands buf i c s v (neither lex) = search lands depth 20

  string_checked-Lands :
      (buf : List ℕ) (i c : ℕ) (s : S) (v : Loop) (o : Option Lexer)
      → Lands (string_checked cfg sink buf i c s v o)
  unfolding string_checked
  string_checked-Lands buf i c s v none = give_up-Lands (sink.error_ex bad_utf8 (at i) s)
  string_checked-Lands buf i c s v (some lex) = string_led-Lands buf i c s v (leading lex c)

  string-Lands : (buf : List ℕ) (i c : ℕ) (s : S) (v : Loop) → Lands (string cfg sink buf i c s v)
  unfolding string string_plain
  string-Lands buf i c s v = search (lands, string_checked-Lands) depth 20

  escape-Lands : (i c : ℕ) (v : Loop) (s : S) (o : Option ℕ) → Lands (escaped sink i c v s o)
  unfolding escaped
  escape-Lands i c v s none = search lands depth 20
  escape-Lands i c v s (some b) = search lands depth 20

  unicode-Lands :
      (i c : ℕ) (v : Loop) (s : S) (o : Option ℕ) → Lands (unicode_escaped sink i c v s o)
  unfolding unicode_escaped unicode_digit
  unicode-Lands i c v s none = search lands depth 20
  unicode-Lands i c v s (some b) = search lands depth 20

  hand_over-Lands :
      (i c : ℕ) (v : Loop) (s : S) (o : Option D) (after : Lexer)
      → after.state ≡ lookup_token
      → Lands (hand_over fl sink i c v s o after)
  unfolding hand_over
  hand_over-Lands i c v s none after e = tt
  hand_over-Lands i c v s (some x) after e =
      >>=-Lands (sink.tokenf (signed fl v.lex x) (position_before i) s) (back (with_lexer v after))
        (λ s'. e)

  keyword-Lands :
      (i c : ℕ) (v : Loop) (s : S) (o : Option ℕ) (last : ℕ) (code : ErrorCode) (t : Token)
      → Lands (keyword_at sink i c v s o last code t)
  unfolding keyword_at
  keyword-Lands i c v s none last code t = tt
  keyword-Lands i c v s (some e) last code t = search lands depth 20

  body_in-Lands :
      (st : LexerState) (buf : List ℕ) (i c : ℕ) (v : Loop) (s : S)
      → Lands (body_in cfg fl sink st buf i c v s)
  unfolding body_in string_escape string_unicode_escape number_sign number number_digit number_frac
      number_exp_sign number_exp big_number keyword_true keyword_false keyword_null
  body_in-Lands lookup_token buf i c v s = Forward-Lands _ (lookup-Forward i c v s)
  body_in-Lands in_string buf i c v s = string-Lands buf i c s v
  body_in-Lands in_string_escape buf i c v s = escape-Lands i c v s _
  body_in-Lands in_string_unicode_escape buf i c v s = unicode-Lands i c v s _
  body_in-Lands in_number_sign buf i c v s = search lands depth 20
  body_in-Lands in_number buf i c v s = search lands depth 20
  body_in-Lands in_number_frac buf i c v s = search (lands, hand_over-Lands) depth 20
  body_in-Lands in_number_exp_sign buf i c v s = search lands depth 20
  body_in-Lands in_number_exp buf i c v s = search (lands, hand_over-Lands) depth 20
  body_in-Lands in_big_number buf i c v s = search lands depth 20
  body_in-Lands in_true buf i c v s = keyword-Lands i c v s _ _ _ _
  body_in-Lands in_false buf i c v s = keyword-Lands i c v s _ _ _ _
  body_in-Lands in_null buf i c v s = keyword-Lands i c v s _ _ _ _

  body-Lands : (buf : List ℕ) (i c : ℕ) (v : Loop) (s : S) → Lands (body cfg fl sink buf i c v s)
  unfolding body
  body-Lands buf i c v s = body_in-Lands v.lex.state buf i c _ s

  pub at_lookup-Forward :
      (st : LexerState) (buf : List ℕ) (i c : ℕ) (v : Loop) (s : S)
      → st ≡ lookup_token
      → Forward (body_in cfg fl sink st buf i c v s)
  unfolding body_in
  at_lookup-Forward lookup_token buf i c v s e = lookup-Forward i c v s
  at_lookup-Forward _ buf i c v s e = cc

  -- The second iteration on a byte, if there is one, goes on to the next byte or ends the loop.
  second_round :
      (buf : List ℕ) (i c : ℕ) (v : Loop) (s : S)
      → v.lex.state ≡ lookup_token
      → (t : Turn S) × (byte_rounds cfg fl sink 1 buf i c v s ≡ some t) × Forward t
  unfolding byte_rounds body
  second_round buf i c v s e =
      let f = at_lookup-Forward v.lex.state buf i c (with_lexer v (sniff v.lex c)) s e in
      (body cfg fl sink buf i c v s, repeated-Forward _ _ f, f)

  -- Two iterations are enough for a byte.
  two_rounds :
      (buf : List ℕ) (i c : ℕ) (v : Loop) (s : S)
      → (t : Turn S) × (byte_rounds cfg fl sink 2 buf i c v s ≡ some t) × Forward t
  unfolding byte_rounds
  two_rounds buf i c v s =
      repeated-total (body cfg fl sink buf i c v s)
        (λ v' s'. byte_rounds cfg fl sink 1 buf i c v' s') (body-Lands buf i c v s)
        (λ v' s' e. second_round buf i c v' s' e)

  loop_total :
      (buf rest : List ℕ) (i : ℕ) (v : Loop) (s : S)
      → (t : Turn S) × (bytes_loop cfg fl sink buf rest i v s ≡ some t) × Forward t
  unfolding bytes_loop
  loop_total buf [] i v s = (next v s, refl, tt)
  loop_total buf (c ∷ cs) i v s =
      let (t, e, f) = two_rounds buf i c v s in
      let (t', e', f') =
        advanced-total t (λ v' s'. bytes_loop cfg fl sink buf cs (i + 1) v' s') f
          (λ v' s'. loop_total buf cs (i + 1) v' s') in
      (t', ap (λ o. advanced o (λ v' s'. bytes_loop cfg fl sink buf cs (i + 1) v' s')) e ∙ e', f')

  -- `embedjson_lexer_push` ends on every buffer, from every state of the lexer and whatever the
  -- handlers of its tokens do: the two iterations that the model allows for each byte are enough.
  pub push_total :
      (lex : Lexer) (s : S) (buf : List ℕ)
      → (r : Outcome (Lexer × S)) × (push cfg fl sink lex s buf ≡ some r)
  unfolding push
  push_total lex s buf =
      let (t, e, f) = loop_total buf buf 0 (start cfg lex) s in
      (ending cfg fl sink lex buf (length buf) t, rw (e, push))
