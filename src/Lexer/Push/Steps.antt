-- ===== src/Lexer/Push/Steps.antt =====
-- Single iterations of the loop of `embedjson_lexer_push` of lexer.c within a run of it.
use embedjson.Common
use embedjson.Base.{
  ◌++◌, sym, ap, ◌∙◌, none, length, ℕ, zero, suc, ◌+◌, ◌≡◌, refl, ap, ◌∙◌, List, [], ◌∷◌, Option,
  some,
}
use embedjson.Common.{Outcome, ret, fault}
use embedjson.Config.{Config}
use embedjson.Lexer.Double.{Doubles}
use embedjson.Lexer.Encoding.{sniff}
use embedjson.Lexer.Push.{
  advanced, advanced, push, start, ending, flush_rest, with_status, body, byte_rounds, bytes_loop,
}
use embedjson.Lexer.Push.Termination.{at_lookup-Forward, repeated-Forward}
use embedjson.Lexer.Step.{with_lexer, Loop, Turn, next, back, stop, crash, ◌>>=◌, give_up}
use embedjson.Lexer.{lookup_token, Lexer, Sink}

-- The lexer after the guess at the encoding has seen some bytes.
abbrev pub sniff_all : Lexer → List ℕ → Lexer
sniff_all lex [] = lex
sniff_all lex (c ∷ cs) = sniff_all (sniff lex c) cs

pub sniff_all-append :
    (xs ys : List ℕ) (lex : Lexer) → sniff_all lex (xs ++ ys) ≡ sniff_all (sniff_all lex xs) ys
sniff_all-append [] ys lex = refl
sniff_all-append (x ∷ xs) ys lex = sniff_all-append xs ys (sniff lex x)

-- A handler called in an iteration, and the loop behind it.
abbrev pub called : {S : Type 0} → Outcome S → (S → Option (Turn S)) → Option (Turn S)
called (ret zero s) rest = rest s
called (ret (suc e) s) rest = some (stop (suc e) s)
called fault rest = some crash

pub called-ext :
    {S : Type 0} (m : Outcome S) (k l : S → Option (Turn S))
    → ((s : S) → k s ≡ l s)
    → called m k ≡ called m l
called-ext (ret zero s) k l h = h s
called-ext (ret (suc e) s) k l h = refl
called-ext fault k l h = refl

pub called-bind :
    {S : Type 0} (m : Outcome S) (f : S → Outcome S) (k : S → Option (Turn S))
    → called (Common.◌>>=◌ m f) k ≡ called m (λ s. called (f s) k)
called-bind (ret zero s) f k = refl
called-bind (ret (suc e) s) f k = refl
called-bind fault f k = refl

module _ {S D : Type 0} (cfg : Config) (fl : Doubles D) (sink : Sink S D) (buf : List ℕ) where
  pub next_step :
      (cs : List ℕ) (i c : ℕ) (v w : Loop) (s s' : S)
      → body cfg fl sink buf i c v s ≡ next w s'
      → bytes_loop cfg fl sink buf (c ∷ cs) i v s ≡ bytes_loop cfg fl sink buf cs (i + 1) w s'
  unfolding bytes_loop byte_rounds
  next_step cs i c v w s s' e = rw e refl

  pub back_step :
      (cs : List ℕ) (i c : ℕ) (v w : Loop) (s s' : S)
      → body cfg fl sink buf i c v s ≡ back w s'
      → ((x : Loop) (s'' : S)
          → (body cfg fl sink buf i c w s' ≡ next x s'')
          → bytes_loop cfg fl sink buf (c ∷ cs) i v s ≡ bytes_loop cfg fl sink buf cs (i + 1) x s'')
  unfolding bytes_loop byte_rounds
  back_step cs i c v w s s' h x s'' h' = rw (h, h') refl

  pub give_up_step :
      (cs : List ℕ) (i c : ℕ) (v : Loop) (s : S) (m : Outcome S)
      → body cfg fl sink buf i c v s ≡ give_up m
      → bytes_loop cfg fl sink buf (c ∷ cs) i v s ≡ some (give_up m)
  unfolding bytes_loop byte_rounds
  give_up_step cs i c v s (ret e s') h = rw h refl
  give_up_step cs i c v s fault h = rw h refl

  pub call_step :
      (cs : List ℕ) (i c : ℕ) (v w : Loop) (s : S) (m : Outcome S)
      → body cfg fl sink buf i c v s ≡ (m >>= λ s'. next w s')
      → bytes_loop cfg fl sink buf (c ∷ cs) i v s
        ≡ called m (λ s'. bytes_loop cfg fl sink buf cs (i + 1) w s')
  unfolding bytes_loop byte_rounds
  call_step cs i c v w s (ret zero s') h = rw h refl
  call_step cs i c v w s (ret (suc e) s') h = rw h refl
  call_step cs i c v w s fault h = rw h refl

  -- `data--` behind a handler: the byte is read again.
  pub again_step :
      (cs : List ℕ) (i c : ℕ) (v w : Loop) (s : S) (m : Outcome S)
      → body cfg fl sink buf i c v s ≡ (m >>= λ s'. back w s')
      → w.lex.state ≡ lookup_token
      → bytes_loop cfg fl sink buf (c ∷ cs) i v s
        ≡ called m (λ s'. bytes_loop cfg fl sink buf (c ∷ cs) i w s')
  unfolding bytes_loop byte_rounds body
  again_step cs i c v w s (ret zero s') h e =
      let f =
        at_lookup-Forward cfg fl sink w.lex.state buf i c (with_lexer w (sniff w.lex c)) s' e in
      rw h (
        ap (λ o. advanced o (λ v' s''. bytes_loop cfg fl sink buf cs (i + 1) v' s''))
          (repeated-Forward (body cfg fl sink buf i c w s') _ f
            ∙ sym (repeated-Forward (body cfg fl sink buf i c w s') _ f)))
  again_step cs i c v w s (ret (suc e) s') h g = rw h refl
  again_step cs i c v w s fault h g = rw h refl

  -- `embedjson_lexer_push` behind the loop
  abbrev pub ended : Lexer → Option (Turn S) → Option (Outcome (Lexer × S))
  ended old o = elim o [ none ↦ none | some t ↦ some (ending cfg fl sink old buf (length buf) t) ]

  pub ended-called :
      (old new : Lexer) (m : Outcome S) (rest : S → Option (Turn S)) (f : S → Outcome S)
      → ((s : S) → ended old (rest s) ≡ some (with_status old new (f s)))
      → ended old (called m rest) ≡ some (with_status old new (Common.◌>>=◌ m f))
  unfolding ending
  ended-called old new (ret zero s) rest f h = h s
  ended-called old new (ret (suc e) s) rest f h = refl
  ended-called old new fault rest f h = refl

  pub push-ended :
      (lex : Lexer) (s : S)
      → push cfg fl sink lex s buf ≡ ended lex (bytes_loop cfg fl sink buf buf 0 (start cfg lex) s)
  unfolding push
  push-ended lex s = refl

  pub push_next :
      (lex : Lexer) (w : Loop) (s s' : S)
      → bytes_loop cfg fl sink buf buf 0 (start cfg lex) s ≡ some (next w s')
      → flush_rest cfg fl sink buf (length buf) w s' ≡ ret 0 s'
      → push cfg fl sink lex s buf ≡ some (ret 0 (w.lex, s'))
  unfolding ending
  push_next lex w s s' h f =
      push-ended lex s ∙ ap (ended lex) h ∙ ap (λ m. some (with_status lex w.lex m)) f
