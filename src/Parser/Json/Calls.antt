-- ===== src/Parser/Json/Calls.antt =====
-- Single calls of the lexer on the parser, and one run of calls behind another.
use embedjson.Base.{ℕ, ◌≡◌, refl, ap, ◌∙◌, Bool, List, [], ◌∷◌, some}
use embedjson.Client.{Client}
use embedjson.Common.{Position}
use embedjson.Config.{Config}
use embedjson.Lexer.Double.{Doubles}
use embedjson.Lexer.Push.Written
use embedjson.Lexer.Push.Written.{Call, run_call, run_calls}
use embedjson.Lexer.Step.Number.Decimal.{decimal}
use embedjson.Lexer.{Token}
use embedjson.Parser.Api.{parser_sink}
use embedjson.Base.Ints.{ℤ}
use embedjson.Parser.Handlers.Scalars.{tokeni, tokenf}
use embedjson.Parser.Handlers.{token}
use embedjson.Parser.Invariant.{Obliging, bind-of_ret}
use embedjson.Parser.Json.Parts.{behind_text, text_taken}
use embedjson.Parser.Json.Places.{At, Leaves}
use embedjson.Parser.Json.{integer, real, Lexeme, mark, string, lexeme, lexemes_of, told_text}
use embedjson.Parser.{ParserState, Bracket, Parser}

-- The first call, by its lexeme.
first_call :
    (calls : List Call) (l : Lexeme) (rest : List Lexeme)
    → lexemes_of calls ≡ l ∷ rest
    → (k : Call) × (more : List Call) × (calls ≡ k ∷ more)
      × (lexeme k ≡ l)
      × (lexemes_of more ≡ rest)
first_call [] l rest e = absurd (cc e)
first_call (k ∷ more) l rest e = (k, more, refl, cc, cc)

mark_call : (k : Call) (t : Token) → lexeme k ≡ mark t → (p : Position) × (k ≡ Written.token t p)
mark_call (Written.token t' p) t e = (p, cc)
mark_call (Written.string b cs p q) t e = absurd (cc e)
mark_call (Written.integer n p) t e = absurd (cc e)
mark_call (Written.decimal_call minus n f k p) t e = absurd (cc e)

string_call :
    (k : Call) (cs : List ℕ)
    → lexeme k ≡ string cs
    → (b : Position) × (p : Position) × (q : Position) × (k ≡ Written.string b cs p q)
string_call (Written.token t' p) cs e = absurd (cc e)
string_call (Written.string b cs' p q) cs e = (b, p, q, cc)
string_call (Written.integer n p) cs e = absurd (cc e)
string_call (Written.decimal_call minus n f k p) cs e = absurd (cc e)

integer_call :
    (k : Call) (n : ℤ) → lexeme k ≡ integer n → (p : Position) × (k ≡ Written.integer n p)
integer_call (Written.token t p) n e = absurd (cc e)
integer_call (Written.string b cs p q) n e = absurd (cc e)
integer_call (Written.integer n' p) n e = (p, cc)
integer_call (Written.decimal_call minus n' f k p) n e = absurd (cc e)

real_call :
    (c : Call) (minus : Bool) (n f k : ℕ)
    → lexeme c ≡ real minus n f k
    → (p : Position) × (c ≡ Written.decimal_call minus n f k p)
real_call (Written.token t p) minus n f k e = absurd (cc e)
real_call (Written.string b cs p q) minus n f k e = absurd (cc e)
real_call (Written.integer n' p) minus n f k e = absurd (cc e)
real_call (Written.decimal_call minus' n' f' k' p) minus n f k e = (p, cc)

module _ {U D : Type 0} (cfg : Config) (fl : Doubles D) (client : Client U D)
    (obliging : Obliging client) (cap : ℕ) where
  -- The first of the calls leave a parser at `st`, and the others are those of `rest`.
  abbrev pub Runs : ParserState → List Bracket → U → List Lexeme → List Call → Parser U → Type 0
  Runs st stack u rest calls p =
      (more : List Call) × (lexemes_of more ≡ rest)
      × (q : Parser U) × (run_calls fl (parser_sink cfg fl client) calls p
          ≡ run_calls fl (parser_sink cfg fl client) more q)
      × At cfg cap st stack u q

  one_call :
      (k : Call) (more calls : List Call) {st : ParserState} {stack : List Bracket} {u : U}
      (rest : List Lexeme) (p : Parser U)
      → calls ≡ k ∷ more
      → lexemes_of more ≡ rest
      → Leaves cfg cap st stack u (run_call fl (parser_sink cfg fl client) k p)
      → Runs st stack u rest calls p
  one_call k more calls rest p e r (q, m, a) = (
    more,
    r,
    q,
    ap (λ c. run_calls fl (parser_sink cfg fl client) c p) e
        ∙ bind-of_ret (run_calls fl (parser_sink cfg fl client) more) m,
    a,
  )

  pub one_mark :
      (t : Token) (calls : List Call) {st : ParserState} {stack : List Bracket} {u : U}
      (rest : List Lexeme) (p : Parser U)
      → lexemes_of calls ≡ mark t ∷ rest
      → ((position : Position) → Leaves cfg cap st stack u (token cfg client t position p))
      → Runs st stack u rest calls p
  one_mark t calls {st} {stack} {u} rest p e m =
      let (k, more, split, l, r) = first_call calls (mark t) rest e in
      let (position, kt) = mark_call k t l in
      one_call (Written.token t position) more calls rest p (split ∙ ap (λ c. c ∷ more) kt) r
        (m position)

  pub one_text :
      (cs : List ℕ) (calls : List Call) {st next : ParserState} {stack : List Bracket} {u : U}
      (rest : List Lexeme) (p : Parser U)
      → lexemes_of calls ≡ string cs ∷ rest
      → At cfg cap st stack u p
      → behind_text st ≡ some next
      → Runs next stack (told_text client cs u) rest calls p
  one_text cs calls rest p e a b =
      let (k, more, split, l, r) = first_call calls (string cs) rest e in
      let (before, chunk, after, kt) = string_call k cs l in
      one_call (Written.string before cs chunk after) more calls rest p
        (split ∙ ap (λ c. c ∷ more) kt) r
        (text_taken cfg fl client obliging a b before chunk after cs)

  pub one_integer :
      (n : ℤ) (calls : List Call) {st : ParserState} {stack : List Bracket} {u : U}
      (rest : List Lexeme) (p : Parser U)
      → lexemes_of calls ≡ integer n ∷ rest
      → ((position : Position) → Leaves cfg cap st stack u (tokeni cfg client n position p))
      → Runs st stack u rest calls p
  one_integer n calls rest p e m =
      let (k, more, split, l, r) = first_call calls (integer n) rest e in
      let (position, kt) = integer_call k n l in
      one_call (Written.integer n position) more calls rest p (split ∙ ap (λ c. c ∷ more) kt) r
        (m position)

  pub one_real :
      (minus : Bool) (n f d : ℕ) (calls : List Call) {st : ParserState} {stack : List Bracket}
      {u : U} (rest : List Lexeme) (p : Parser U)
      → lexemes_of calls ≡ real minus n f d ∷ rest
      → ((position : Position)
          → Leaves cfg cap st stack u (tokenf cfg client (decimal fl minus n f d) position p))
      → Runs st stack u rest calls p
  one_real minus n f d calls rest p e m =
      let (k, more, split, l, r) = first_call calls (real minus n f d) rest e in
      let (position, kt) = real_call k minus n f d l in
      one_call (Written.decimal_call minus n f d position) more calls rest p
        (split ∙ ap (λ c. c ∷ more) kt) r (m position)

  -- One run behind another.
  pub and_then :
      {st st' : ParserState} {stack stack' : List Bracket} {u u' : U} {middle : List Lexeme}
      (calls : List Call) (p : Parser U) (rest : List Lexeme)
      → Runs st stack u middle calls p
      → ((more : List Call) (q : Parser U)
          → lexemes_of more ≡ middle
          → At cfg cap st stack u q
          → Runs st' stack' u' rest more q)
      → Runs st' stack' u' rest calls p
  and_then calls p rest (more, r, q, e, a) k =
      let (more', r', q', e', a') = k more q r a in (more', r', q', e ∙ e', a')
