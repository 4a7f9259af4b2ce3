-- ===== src/Lexer/Step/Text/Plain.antt =====
-- A string without escape sequences through `embedjson_lexer_push` of lexer.c.
use embedjson.Base.{
  ℕ, zero, suc, ◌+◌, ◌≡◌, ◌≢◌, refl, ap, ◌∙◌, true, false, List, [], ◌∷◌, ◌++◌, some, length, take,
  arith, Option,
}
use mathlib.Core.Path.{subst}
use embedjson.Common
use embedjson.Common.{at, Outcome, ret, fault}
use embedjson.Config.{Config}
use embedjson.Lexer.Double.{Doubles}
use embedjson.Lexer.Encoding.{sniff}
use embedjson.Lexer.Push.Steps.{
  sniff_all, sniff_all-append, call_step, ended, ended-called, push-ended,
}
use embedjson.Lexer.Push.{body, body_in, bytes_loop, push, ending, flush_rest, with_status, start}
use embedjson.Lexer.Step.Lookup.{lookup}
use embedjson.Lexer.Step.Text.{string, string_checked, string_led, string_plain}
use embedjson.Lexer.Step.{Loop, Turn, next, ◌>>=◌, flush_string, slice}
use embedjson.Lexer.Utf8.Chars.{
  Taken, nothing, byte, Takes, Taken-append, Taken-char, Taken-run, inside, sniff-inside,
}
use embedjson.Lexer.Utf8.Masks.{ranges}
use embedjson.Lexer.Utf8.Rfc3629.{In, IsChar, refused}
use embedjson.Lexer.Utf8.{continuation, leading}
use embedjson.Lexer.{Lexer, lookup_token, Sink}

-- The text between the quotation marks: printable ASCII characters but the quotation mark and the
-- backslash, and the characters of RFC 3629 that the lexer takes.
pub data IsPlain : List ℕ → Type 0 where
  empty : IsPlain []
  ascii :
      (c : ℕ) (cs : List ℕ) → In 0x20 0x7f c → c ≢ b'"' → c ≢ b'\\' → IsPlain cs → IsPlain (c ∷ cs)
  wide : (ch cs : List ℕ) → IsChar ch → refused ch ≡ false → IsPlain cs → IsPlain (ch ++ cs)

pub take_append : {A : Type 0} (xs ys : List A) → take (length xs) (xs ++ ys) ≡ xs
take_append [] ys = refl
take_append (x ∷ xs) ys = ap (λ zs. x ∷ zs) (take_append xs ys)

-- A lexer between tokens, with no character open.
abbrev pub idle : Lexer → Lexer
idle lex = record lex { state = lookup_token; nb = 0; cc = 0 }

sniff-idle : (lex : Lexer) (c : ℕ) → sniff (idle lex) c ≡ idle (sniff (idle lex) c)
unfolding sniff
sniff-idle lex c = ground arith

-- Between tokens, after the bytes.
abbrev pub rested : Lexer → List ℕ → Lexer
rested lex bytes = idle (sniff_all lex bytes)

bind_ret : {S : Type 0} (m : Outcome S) → Common.◌>>=◌ m (ret 0) ≡ m
bind_ret (ret zero s) = refl
bind_ret (ret (suc e) s) = refl
bind_ret fault = refl

>>=-assoc :
    {S : Type 0} (m : Outcome S) (f : S → Outcome S) (g : S → Turn S)
    → (Common.◌>>=◌ m f >>= g) ≡ (m >>= λ s. f s >>= g)
>>=-assoc (ret zero s) f g = refl
>>=-assoc (ret (suc e) s) f g = refl
>>=-assoc fault f g = refl

module _ {S D : Type 0} (cfg : Config) (fl : Doubles D) (sink : Sink S D)
    (validates : cfg.validate_utf8 ≡ true) where
  letter :
      (buf : List ℕ) (chunk : Option ℕ) (c : ℕ)
      → In 0x20 0x7f c
      → c ≢ b'"'
      → c ≢ b'\\'
      → Takes cfg fl sink buf chunk 0 0 c 0 0
  unfolding string string_checked string_led string_plain continuation leading
  letter buf chunk c h nq ns lex i s = ground (arith, ranges c (omega arith))

  pub Taken-plain :
      (buf : List ℕ) (chunk : Option ℕ) (cs : List ℕ)
      → IsPlain cs
      → Taken cfg fl sink buf chunk 0 0 cs 0 0
  Taken-plain buf chunk cs empty = nothing _ _
  Taken-plain buf chunk cs (ascii c more h nq ns p) =
      byte _ _ _ 0 0 _ _ _ (letter buf chunk c h nq ns) (Taken-plain buf chunk more p)
  Taken-plain buf chunk cs (wide ch more h r p) =
      Taken-append cfg fl sink buf chunk (Taken-char cfg fl sink buf chunk validates ch h r)
        (Taken-plain buf chunk more p)

  -- The quotation mark behind the text.
  pub quoted :
      (buf : List ℕ) (chunk : Option ℕ) (i : ℕ) (lex : Lexer) (s : S)
      → body cfg fl sink buf i b'"' (inside lex chunk 0 0) s ≡ (
          (Common.◌>>=◌ (flush_string sink buf chunk i s) (sink.tokenc_end (at i))) >>= λ s'.
          next (record { lex = rested lex (b'"' ∷ []); chunk = chunk }) s')
  unfolding body body_in string string_checked string_led string_plain continuation leading
  quoted buf chunk i lex s =
      ap (string cfg sink buf i b'"' s) (sniff-inside lex chunk 0 0 b'"')
      ∙ rw (validates, >>=-assoc) refl

  pub opened :
      (buf : List ℕ) (i : ℕ) (v : Loop) (lex : Lexer) (s : S)
      → v.lex ≡ idle lex
      → body cfg fl sink buf i b'"' v s ≡ (
          sink.tokenc_begin (at i) s >>= λ s'.
          next (inside (sniff v.lex b'"') (some (i + 1)) 0 0) s')
  unfolding body body_in lookup
  opened buf i v lex s e =
      rw e
        (ap (λ l. lookup sink i b'"' (record { lex = l; chunk = v.chunk }) s) (sniff-idle lex b'"'))

  slice-text : (cs : List ℕ) → slice (b'"' ∷ cs ++ b'"' ∷ []) 1 (1 + length cs) ≡ cs
  slice-text cs = ap (λ n. take n (cs ++ b'"' ∷ [])) (omega arith) ∙ take_append cs (b'"' ∷ [])

  -- The text is handed on in one chunk, or not at all if it is empty.
  abbrev pub handed : List ℕ → S → Outcome S
  handed [] s = ret 0 s
  handed (c ∷ cs) s = sink.tokenc (at 1) (c ∷ cs) s

  flush-handed :
      (cs : List ℕ) (s : S)
      → flush_string sink (b'"' ∷ cs ++ b'"' ∷ []) (some 1) (1 + length cs) s ≡ handed cs s
  unfolding flush_string
  flush-handed [] s = refl
  flush-handed (c ∷ cs) s = ground (arith, slice-text (c ∷ cs))

  no_rest :
      (buf : List ℕ) (chunk : Option ℕ) (lex : Lexer) (s : S)
      → lex.state ≡ lookup_token
      → flush_rest cfg fl sink buf (length buf) (record { lex = lex; chunk = chunk }) s ≡ ret 0 s
  unfolding flush_rest
  no_rest buf chunk lex s e = ground arith

  -- The quotation mark at the end of the buffer.
  ends :
      (buf : List ℕ) (chunk : Option ℕ) (i : ℕ) (old lex : Lexer) (s : S)
      → ended cfg fl sink buf old
          (bytes_loop cfg fl sink buf (b'"' ∷ []) i (inside lex chunk 0 0) s)
        ≡ some (
            with_status old
              (rested lex (b'"' ∷ []))
              (Common.◌>>=◌ (flush_string sink buf chunk i s) (sink.tokenc_end (at i))))
  unfolding bytes_loop ending
  ends buf chunk i old lex s =
      ap (ended cfg fl sink buf old)
        (call_step cfg fl sink buf [] i b'"' _ _ s _ (quoted buf chunk i lex s))
      ∙ ended-called cfg fl sink buf old (rested lex (b'"' ∷ [])) _ _ (ret 0) (λ s'.
        ap (λ m. some (with_status old (rested lex (b'"' ∷ [])) m))
          (no_rest buf chunk (rested lex (b'"' ∷ [])) s' refl))
      ∙ ap (λ m. some (with_status old (rested lex (b'"' ∷ [])) m))
          (bind_ret (Common.◌>>=◌ (flush_string sink buf chunk i s) (sink.tokenc_end (at i))))

  plain_string_idle :
      (lex : Lexer) (s : S) (cs : List ℕ)
      → IsPlain cs
      → push cfg fl sink (idle lex) s (b'"' ∷ cs ++ b'"' ∷ [])
        ≡ some (
            with_status (idle lex) (rested (idle lex) (b'"' ∷ cs ++ b'"' ∷ [])) (
              Common.◌>>=◌
                (sink.tokenc_begin (at 0) s)
                (λ s1. Common.◌>>=◌ (handed cs s1) (sink.tokenc_end (at (1 + length cs))))))
  plain_string_idle lex s cs p =
      push-ended cfg fl sink _ (idle lex) s
      ∙ ap (ended cfg fl sink _ (idle lex)) (
          call_step cfg fl sink _ (cs ++ b'"' ∷ []) 0 b'"' _ _ s _
            (opened _ 0 (start cfg (idle lex)) lex s refl))
      ∙ ended-called cfg fl sink _ (idle lex) _ (sink.tokenc_begin (at 0) s) _ _ (λ s1.
        ap (ended cfg fl sink _ (idle lex)) (
          Taken-run cfg fl sink _ (some 1) (b'"' ∷ []) 1 (sniff (idle lex) b'"') s1
            (Taken-plain _ _ cs p))
        ∙ ends _ (some 1) (1 + length cs) (idle lex) (sniff_all (sniff (idle lex) b'"') cs) s1
        ∙ rw (flush-handed cs s1, sniff_all-append cs (b'"' ∷ []) (sniff (idle lex) b'"')) refl)

  -- Where EMBEDJSON_VALIDATE_UTF8 is on, `embedjson_lexer_push` on a string between its quotation
  -- marks, at the start of a token, calls the handlers of its begin, of one chunk with exactly the
  -- bytes of the text if there are any, and of its end, one after the other until one reports an
  -- error. Then the lexer is at the start of a token again and, but for its guess at the encoding, as
  -- before. The text is of printable ASCII but quotation mark and backslash, and of the characters
  -- of RFC 3629 that the lexer takes.
  pub plain_string :
      (lex : Lexer) (s : S) (cs : List ℕ)
      → lex.state ≡ lookup_token
      → lex.nb ≡ 0
      → lex.cc ≡ 0
      → IsPlain cs
      → push cfg fl sink lex s (b'"' ∷ cs ++ b'"' ∷ [])
        ≡ some (
            with_status lex (rested lex (b'"' ∷ cs ++ b'"' ∷ [])) (
              Common.◌>>=◌
                (sink.tokenc_begin (at 0) s)
                (λ s1. Common.◌>>=◌ (handed cs s1) (sink.tokenc_end (at (1 + length cs))))))
  plain_string lex s cs e n k p =
      let same : idle lex ≡ lex = ground arith in
      subst
        (λ l.
          push cfg fl sink l s (b'"' ∷ cs ++ b'"' ∷ [])
          ≡ some (
              with_status l (rested l (b'"' ∷ cs ++ b'"' ∷ [])) (
                Common.◌>>=◌ (sink.tokenc_begin (at 0) s)
                  (λ s1. Common.◌>>=◌ (handed cs s1) (sink.tokenc_end (at (1 + length cs)))))))
        same (plain_string_idle lex s cs p)
