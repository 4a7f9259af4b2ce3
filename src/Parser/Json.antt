-- ===== src/Parser/Json.antt =====
-- JSON values, the lexemes that they are written with, and the events that the library owes the user
-- for them: what parser.c promises for a whole document.
pub mod Places
pub mod Brackets
pub mod Steps
pub mod Parts
pub mod Calls
pub mod Values
pub mod Document
pub mod Finish
use embedjson.Base.{ℕ, suc, Bool, true, false, ◌||◌, List, [], ◌∷◌, ◌++◌, if◌then◌else◌}
use embedjson.Base.Ints.{ℤ}
use embedjson.Client.{
  Event, null, bool, int, double, string_begin, string_chunk, string_end, object_begin, object_end,
  array_begin, array_end, Client,
}
use embedjson.Lexer.Double.{Doubles}
use embedjson.Lexer.Push.Written
use embedjson.Lexer.Push.Written.{Call}
use embedjson.Lexer.Step.Number.Decimal.{decimal}
use embedjson.Lexer.{
  Token, open_curly_bracket, close_curly_bracket, open_bracket, close_bracket, comma, colon,
  true_token, false_token, null_token,
}
use Prim.Native.Nat.{max}

-- A number is an integer or, with a fraction, its sign, its integer, and the value and the number
-- of the digits behind the point.
mutual
  pub data Json : Type 0 where
    null_value true_value false_value : Json
    text : List ℕ → Json
    integer : ℤ → Json
    real : Bool → ℕ → ℕ → ℕ → Json
    array : Items → Json
    object : Members → Json

  pub data Items : Type 0 where
    no_items : Items
    item : Json → Items → Items

  pub data Members : Type 0 where
    no_members : Members
    member : List ℕ → Json → Members → Members

-- A call of the lexer without its positions.
pub data Lexeme : Type 0 where
  mark : Token → Lexeme
  string : List ℕ → Lexeme
  integer : ℤ → Lexeme
  real : Bool → ℕ → ℕ → ℕ → Lexeme

abbrev pub lexeme : Call → Lexeme
lexeme (Written.token t p) = mark t
lexeme (Written.string b cs p e) = string cs
lexeme (Written.integer n p) = integer n
lexeme (Written.decimal_call minus n f k p) = real minus n f k

abbrev pub lexemes_of : List Call → List Lexeme
lexemes_of [] = []
lexemes_of (k ∷ calls) = lexeme k ∷ lexemes_of calls

-- The lexemes of a value, followed by others.
unfoldable mutual
  pub lexemes : Json → List Lexeme → List Lexeme
  lexemes null_value rest = mark null_token ∷ rest
  lexemes true_value rest = mark true_token ∷ rest
  lexemes false_value rest = mark false_token ∷ rest
  lexemes (text cs) rest = string cs ∷ rest
  lexemes (integer n) rest = integer n ∷ rest
  lexemes (real minus n f k) rest = real minus n f k ∷ rest
  lexemes (array no_items) rest = mark open_bracket ∷ mark close_bracket ∷ rest
  lexemes (array (item v xs)) rest = mark open_bracket ∷ lexemes v (more_items xs rest)
  lexemes (object no_members) rest = mark open_curly_bracket ∷ mark close_curly_bracket ∷ rest
  lexemes (object (member key v ms)) rest =
      mark open_curly_bracket ∷ string key ∷ mark colon ∷ lexemes v (more_members ms rest)

  pub more_items : Items → List Lexeme → List Lexeme
  more_items no_items rest = mark close_bracket ∷ rest
  more_items (item v xs) rest = mark comma ∷ lexemes v (more_items xs rest)

  pub more_members : Members → List Lexeme → List Lexeme
  more_members no_members rest = mark close_curly_bracket ∷ rest
  more_members (member key v ms) rest =
      mark comma ∷ string key ∷ mark colon ∷ lexemes v (more_members ms rest)

-- Whether an empty array stands as a value in an object.
abbrev pub is_empty_array : Json → Bool
is_empty_array (array no_items) = true
is_empty_array _ = false

unfoldable mutual
  pub has_empty_member : Json → Bool
  has_empty_member (array xs) = has_empty_member_items xs
  has_empty_member (object ms) = has_empty_member_members ms
  has_empty_member _ = false

  pub has_empty_member_items : Items → Bool
  has_empty_member_items no_items = false
  has_empty_member_items (item v xs) = has_empty_member v || has_empty_member_items xs

  pub has_empty_member_members : Members → Bool
  has_empty_member_members no_members = false
  has_empty_member_members (member key v ms) =
      is_empty_array v || (has_empty_member v || has_empty_member_members ms)

-- How many brackets are open at once at most.
unfoldable mutual
  pub depth : Json → ℕ
  depth (array xs) = suc (depth_items xs)
  depth (object ms) = suc (depth_members ms)
  depth _ = 0

  pub depth_items : Items → ℕ
  depth_items no_items = 0
  depth_items (item v xs) = max (depth v) (depth_items xs)

  pub depth_members : Members → ℕ
  depth_members no_members = 0
  depth_members (member key v ms) = max (depth v) (depth_members ms)

module _ {U D : Type 0} (client : Client U D) where
  -- The user's state after a callback.
  abbrev pub told : Event D → U → U
  told e u = (client.event e u).1

  abbrev pub told_chunk : List ℕ → U → U
  told_chunk [] u = u
  told_chunk (c ∷ cs) u = told (string_chunk (c ∷ cs)) u

  abbrev pub told_text : List ℕ → U → U
  told_text cs u = told string_end (told_chunk cs (told string_begin u))

module _ {U D : Type 0} (fl : Doubles D) (client : Client U D) where
  -- The user's state after the callbacks for a value, in their order.
  unfoldable mutual
    pub told_value : Json → U → U
    told_value null_value u = told client null u
    told_value true_value u = told client (bool true) u
    told_value false_value u = told client (bool false) u
    told_value (text cs) u = told_text client cs u
    told_value (integer n) u = told client (int n) u
    told_value (real minus n f k) u = told client (double (decimal fl minus n f k)) u
    told_value (array xs) u = told client array_end (told_items xs (told client array_begin u))
    told_value (object ms) u = told client object_end (told_members ms (told client object_begin u))

    pub told_items : Items → U → U
    told_items no_items u = u
    told_items (item v xs) u = told_items xs (told_value v u)

    pub told_members : Members → U → U
    told_members no_members u = u
    told_members (member key v ms) u = told_members ms (told_value v (told_text client key u))
