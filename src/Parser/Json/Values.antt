-- ===== src/Parser/Json/Values.antt =====
-- The calls of a JSON value on the parser, by induction on the value.
use embedjson.Base.{
  ℕ, suc, ◌+◌, ◌*◌, ◌≤◌, ◌≡◌, refl, Bool, true, false, ◌||◌, List, ◌∷◌, some, length, arith,
}
use embedjson.Client.{null, bool, object_begin, object_end, array_begin, array_end, Client}
use embedjson.Config.{Config}
use embedjson.Lexer.Double.{Doubles}
use embedjson.Lexer.Push.Written.{Call}
use embedjson.Lexer.Step.Number.Decimal.{decimal}
use embedjson.Lexer.{
  open_curly_bracket, close_curly_bracket, open_bracket, close_bracket, comma, colon, true_token,
  false_token, null_token,
}
use embedjson.Parser.Invariant.{Obliging, fits, closed_state}
use embedjson.Parser.Json.Parts.{
  behind_text, behind_value-text, array_closes, empty_array_closes, object_closes,
  empty_object_closes,
}
use embedjson.Parser.Json.Places.{At, behind_value}
use embedjson.Parser.Json.Steps.{
  array_opens, object_opens, key_marked, comma_in_array, comma_in_object, word_taken, integer_taken,
  double_taken,
}
use embedjson.Parser.Json.{
  Json, Items, Members, null_value, true_value, false_value, text, integer, real, array, object,
  no_items, item, no_members, member, Lexeme, mark, string, lexemes_of, lexemes, more_items,
  more_members, is_empty_array, has_empty_member, has_empty_member_items, has_empty_member_members,
  depth, depth_items, depth_members, told, told_text, told_value, told_items, told_members,
}
use embedjson.Parser.{
  ParserState, maybe_object_key, expect_colon, maybe_object_comma, expect_object_value,
  maybe_array_value, expect_array_value, maybe_array_comma, Bracket, curly, square, Parser,
}
use mathlib.Core.Path.{subst}
use embedjson.Parser.Json.Calls.{Runs, one_mark, one_text, one_integer, one_real, and_then}

-- An empty array as a value in an object.
abbrev pub misleads : ParserState → Json → Bool
misleads expect_object_value v = is_empty_array v
misleads _ v = false

neither : (a b : Bool) → (a || b) ≡ false → (a ≡ false) × (b ≡ false)
neither a b h = ground arith

pub behind_value-closed :
    (st : ParserState) (stack : List Bracket) {next : ParserState}
    → behind_value st ≡ some next
    → fits st stack ≡ true
    → closed_state maybe_object_comma maybe_array_comma stack ≡ next
behind_value-closed st stack b f = ground arith

behind_value-empty :
    (st : ParserState) (stack : List Bracket) {next : ParserState}
    → behind_value st ≡ some next
    → fits st stack ≡ true
    → misleads st (array no_items) ≡ false
    → closed_state maybe_object_key maybe_array_comma stack ≡ next
behind_value-empty st stack b f m = ground arith

module _ {U D : Type 0} (cfg : Config) (fl : Doubles D) (client : Client U D)
    (obliging : Obliging client) (cap : ℕ) where
  -- A value in a state that wants one, with room for its brackets.
  abbrev ValueRuns : Json → Type 0
  ValueRuns v =
      (st next : ParserState) (stack : List Bracket) (u : U) (calls : List Call)
      (rest : List Lexeme) (p : Parser U)
      → behind_value st ≡ some next
      → fits st stack ≡ true
      → length stack + depth v ≤ 8 * cap
      → has_empty_member v ≡ false
      → misleads st v ≡ false
      → lexemes_of calls ≡ lexemes v rest
      → At cfg cap st stack u p
      → Runs cfg fl client obliging cap next stack (told_value fl client v u) rest calls p

  abbrev ItemsRun : Items → Type 0
  ItemsRun xs =
      (stack : List Bracket) (u : U) (calls : List Call) (rest : List Lexeme) (p : Parser U)
      → length stack + suc (depth_items xs) ≤ 8 * cap
      → has_empty_member_items xs ≡ false
      → lexemes_of calls ≡ more_items xs rest
      → At cfg cap maybe_array_comma (square ∷ stack) u p
      → Runs cfg fl client obliging cap (closed_state maybe_object_comma maybe_array_comma stack)
          stack (told client array_end (told_items fl client xs u)) rest calls p

  abbrev MembersRun : Members → Type 0
  MembersRun ms =
      (stack : List Bracket) (u : U) (calls : List Call) (rest : List Lexeme) (p : Parser U)
      → length stack + suc (depth_members ms) ≤ 8 * cap
      → has_empty_member_members ms ≡ false
      → lexemes_of calls ≡ more_members ms rest
      → At cfg cap maybe_object_comma (curly ∷ stack) u p
      → Runs cfg fl client obliging cap (closed_state maybe_object_comma maybe_array_comma stack)
          stack (told client object_end (told_members fl client ms u)) rest calls p

  -- The state behind a closed value, renamed.
  in_next :
      {st next : ParserState} {stack : List Bracket} {u : U} {rest : List Lexeme}
      (calls : List Call) (p : Parser U)
      → st ≡ next
      → Runs cfg fl client obliging cap st stack u rest calls p
      → Runs cfg fl client obliging cap next stack u rest calls p
  in_next {stack} {u} {rest} calls p e r =
      subst (λ s. Runs cfg fl client obliging cap s stack u rest calls p) e r

  -- A member behind its comma or bracket: its key, the colon and its value.
  member_run :
      (key : List ℕ) (v : Json) {st : ParserState} (stack : List Bracket) (u : U)
      (calls : List Call) (rest : List Lexeme) (p : Parser U)
      → ValueRuns v
      → behind_text st ≡ some expect_colon
      → length stack + suc (depth v) ≤ 8 * cap
      → has_empty_member v ≡ false
      → is_empty_array v ≡ false
      → lexemes_of calls ≡ string key ∷ mark colon ∷ lexemes v rest
      → At cfg cap st (curly ∷ stack) u p
      → Runs cfg fl client obliging cap maybe_object_comma
          (curly ∷ stack)
          (told_value fl client v (told_text client key u))
          rest
          calls
          p
  member_run key v stack u calls rest p run b room em ea e a =
      and_then cfg fl client obliging cap calls p rest
        (one_text cfg fl client obliging cap key calls (mark colon ∷ lexemes v rest) p e a b)
        λ c1 p1 e1 a1.
          and_then cfg fl client obliging cap c1 p1 rest
            (one_mark cfg fl client obliging cap colon c1 (lexemes v rest) p1 e1
              (λ position. key_marked cfg client obliging position a1 refl))
            λ c2 p2 e2 a2.
              run expect_object_value maybe_object_comma (curly ∷ stack) (told_text client key u) c2
                rest p2 refl refl (omega arith) em ea e2 a2

  mutual
    unfolding lexemes has_empty_member depth told_value

    pub value_run : (v : Json) → ValueRuns v
    value_run null_value st next stack u calls rest p b f room em ml e a =
        one_mark cfg fl client obliging cap null_token calls rest p e
          (λ position. word_taken cfg client obliging position a null_token null refl b)
    value_run true_value st next stack u calls rest p b f room em ml e a =
        one_mark cfg fl client obliging cap true_token calls rest p e
          (λ position. word_taken cfg client obliging position a true_token (bool true) refl b)
    value_run false_value st next stack u calls rest p b f room em ml e a =
        one_mark cfg fl client obliging cap false_token calls rest p e
          (λ position. word_taken cfg client obliging position a false_token (bool false) refl b)
    value_run (text cs) st next stack u calls rest p b f room em ml e a =
        one_text cfg fl client obliging cap cs calls rest p e a (behind_value-text st b)
    value_run (integer n) st next stack u calls rest p b f room em ml e a =
        one_integer cfg fl client obliging cap n calls rest p e
          (λ position. integer_taken cfg client obliging position a n b)
    value_run (real minus n x k) st next stack u calls rest p b f room em ml e a =
        one_real cfg fl client obliging cap minus n x k calls rest p e
          (λ position. double_taken cfg client obliging position a (decimal fl minus n x k) b)
    value_run (array no_items) st next stack u calls rest p b f room em ml e a =
        in_next calls p (behind_value-empty st stack b f ml) (
          and_then cfg fl client obliging cap calls p rest
            (one_mark cfg fl client obliging cap open_bracket calls (mark close_bracket ∷ rest) p e
              (λ position. array_opens cfg client obliging position a b (omega arith)))
            λ c1 p1 e1 a1.
              one_mark cfg fl client obliging cap close_bracket c1 rest p1 e1
                (λ position. empty_array_closes cfg client obliging position stack a1))
    value_run (array (item v xs)) st next stack u calls rest p b f room em ml e a =
        in_next calls p (behind_value-closed st stack b f) (
          and_then cfg fl client obliging cap calls p rest
            (one_mark cfg fl client obliging cap open_bracket calls (lexemes v (more_items xs rest))
              p e (λ position. array_opens cfg client obliging position a b (omega arith)))
            λ c1 p1 e1 a1.
              and_then cfg fl client obliging cap c1 p1 rest
                (value_run v maybe_array_value maybe_array_comma (square ∷ stack)
                  (told client array_begin u) c1 (more_items xs rest) p1 refl refl (omega arith)
                  (neither _ _ em).0 refl e1 a1)
                λ c2 p2 e2 a2.
                  items_run xs stack _ c2 rest p2 (omega arith) (neither _ _ em).1 e2 a2)
    value_run (object no_members) st next stack u calls rest p b f room em ml e a =
        in_next calls p (behind_value-closed st stack b f) (
          and_then cfg fl client obliging cap calls p rest
            (one_mark cfg fl client obliging cap open_curly_bracket calls
              (mark close_curly_bracket ∷ rest) p e
              (λ position. object_opens cfg client obliging position a b (omega arith)))
            λ c1 p1 e1 a1.
              one_mark cfg fl client obliging cap close_curly_bracket c1 rest p1 e1
                (λ position. empty_object_closes cfg client obliging position stack a1))
    value_run (object (member key v ms)) st next stack u calls rest p b f room em ml e a =
        in_next calls p (behind_value-closed st stack b f) (
          and_then cfg fl client obliging cap calls p rest
            (one_mark cfg fl client obliging cap open_curly_bracket calls
              (string key ∷ mark colon ∷ lexemes v (more_members ms rest)) p e
              (λ position. object_opens cfg client obliging position a b (omega arith)))
            λ c1 p1 e1 a1.
              and_then cfg fl client obliging cap c1 p1 rest
                (member_run key v stack (told client object_begin u) c1 (more_members ms rest) p1
                  (value_run v) refl (omega arith) (neither _ _ (neither _ _ em).1).0
                  (neither _ _ em).0 e1 a1)
                λ c2 p2 e2 a2.
                  members_run ms stack _ c2 rest p2 (omega arith) (neither _ _ (neither _ _ em).1).1
                    e2 a2)

    items_run : (xs : Items) → ItemsRun xs
    items_run no_items stack u calls rest p room em e a =
        one_mark cfg fl client obliging cap close_bracket calls rest p e
          (λ position. array_closes cfg client obliging position stack a)
    items_run (item v xs) stack u calls rest p room em e a =
        and_then cfg fl client obliging cap calls p rest
          (one_mark cfg fl client obliging cap comma calls (lexemes v (more_items xs rest)) p e
            (λ position. comma_in_array cfg client obliging position a refl))
          λ c1 p1 e1 a1.
            and_then cfg fl client obliging cap c1 p1 rest
              (value_run v expect_array_value maybe_array_comma (square ∷ stack) u c1
                (more_items xs rest) p1 refl refl (omega arith) (neither _ _ em).0 refl e1 a1)
              λ c2 p2 e2 a2. items_run xs stack _ c2 rest p2 (omega arith) (neither _ _ em).1 e2 a2

    members_run : (ms : Members) → MembersRun ms
    members_run no_members stack u calls rest p room em e a =
        one_mark cfg fl client obliging cap close_curly_bracket calls rest p e
          (λ position. object_closes cfg client obliging position stack a)
    members_run (member key v ms) stack u calls rest p room em e a =
        and_then cfg fl client obliging cap calls p rest
          (one_mark cfg fl client obliging cap comma calls
            (string key ∷ mark colon ∷ lexemes v (more_members ms rest)) p e
            (λ position. comma_in_object cfg client obliging position a refl))
          λ c1 p1 e1 a1.
            and_then cfg fl client obliging cap c1 p1 rest
              (member_run key v stack u c1 (more_members ms rest) p1 (value_run v) refl
                (omega arith) (neither _ _ (neither _ _ em).1).0 (neither _ _ em).0 e1 a1)
              λ c2 p2 e2 a2.
                members_run ms stack _ c2 rest p2 (omega arith) (neither _ _ (neither _ _ em).1).1
                  e2 a2
