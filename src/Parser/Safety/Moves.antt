-- ===== src/Parser/Safety/Moves.antt =====
-- The pieces of `embedjson_token` of parser.c keep the parser's invariant, whatever the callbacks
-- return.
use embedjson.Base.{◌<◌, ◌*◌, ◌≡◌, refl, ap, ◌∙◌, true, false, List, [], ◌∷◌, length, arith}
use embedjson.Client.{Event, object_begin, object_end, array_begin, array_end, Client}
use embedjson.Common
use embedjson.Common.{Position, Outcome, ret, ◌>>=◌}
use embedjson.Config.{Config}
use embedjson.Lexer.Push.Contract.Turns.{if_split}
use embedjson.Lexer.Push.Contract.{Within}
use embedjson.Parser.Handlers.{
  closed, open_object, open_array, close_object, close_array, primitive,
}
use embedjson.Parser.Invariant.{
  IsParser, fits, contents-cons, closed_state, closed-eq, HasStack-state, HasStack-user,
  HasStack-size,
}
use embedjson.Parser.Moves.{check_top-eq}
use embedjson.Parser.Safety.{Strict, bind-Within, call-Within, error-Within}
use embedjson.Parser.Stack.Laws.{
  HasStack, brackets, stack_full-eq, stack_write-eq, HasStack-pushed, brackets-pushed,
}
use embedjson.Parser.Stack.Refine.{contents}
use embedjson.Parser.Stack.{stack_full, stack_push}
use embedjson.Parser.{
  ParserState, maybe_object_key, maybe_object_comma, maybe_array_value, maybe_array_comma, Bracket,
  curly, square, Parser, call,
}

-- A parser with the brackets `stack` open, in whatever state.
abbrev pub Holding : {U : Type 0} → Config → List Bracket → Parser U → Type 0
Holding cfg stack q = HasStack cfg q × (brackets q ≡ stack)

pub Holding-state :
    {U : Type 0} (cfg : Config) (q : Parser U) (st : ParserState) {stack : List Bracket}
    → Holding cfg stack q
    → fits st stack ≡ true
    → IsParser cfg (record q { state = st })
Holding-state cfg q st h f = record {
  has_stack = HasStack-state q h.0 st;
  fit = ap (fits st) h.1 ∙ f;
}

closed_state-fits :
    (in_object : ParserState) (rest : List Bracket)
    → fits in_object (curly ∷ []) ≡ true
    → fits (closed_state in_object maybe_array_comma rest) rest ≡ true
closed_state-fits in_object rest h = ground arith

module _ {U D : Type 0} (cfg : Config) (client : Client U D) (strict : Strict client)
    (static : cfg.dynamic_stack ≡ false) (position : Position) where
  stack_push-Within :
      (b : Bracket) (p : Parser U)
      → HasStack cfg p
      → Within
          (λ q. Holding cfg (b ∷ brackets p) q × (q.state ≡ p.state))
          (stack_push cfg client b p)
  unfolding stack_push
  stack_push-Within b p ok =
      let Q : Parser U → Type 0 = λ q. Holding cfg (b ∷ brackets p) q × (q.state ≡ p.state) in
      if_split (Within Q) (stack_full cfg p) _ _
        (λ full.
          if_split (Within Q) cfg.dynamic_stack _ _ (λ dynamic. absurd (cc))
            (λ fixed. error-Within client strict Common.stack_overflow Common.null_position p Q))
        (λ free.
          let room : p.stack_size < 8 * length p.stack = ground (arith, stack_full-eq p ok) in
          rw (stack_write-eq p ok b room)
            ((HasStack-pushed p ok b room, brackets-pushed p ok b room), refl))

  -- A bracket and the callback behind it.
  opened-Within :
      (b : Bracket) (e : Event D) (p : Parser U)
      → HasStack cfg p
      → Within
          (λ q. Holding cfg (b ∷ brackets p) q × (q.state ≡ p.state))
          (stack_push cfg client b p >>= call client e)
  opened-Within b e p ok =
      let Q : Parser U → Type 0 = λ q. Holding cfg (b ∷ brackets p) q × (q.state ≡ p.state) in
      bind-Within Q Q (stack_push cfg client b p) (call client e) (stack_push-Within b p ok)
        (λ q h. call-Within client Q e q (λ u. ((HasStack-user q h.0.0 u, h.0.1), h.1)))

  pub open_object-Within :
      (p : Parser U) → HasStack cfg p → Within (IsParser cfg) (open_object cfg client p)
  unfolding open_object
  open_object-Within p ok =
      bind-Within _ (IsParser cfg) (stack_push cfg client curly p) _ (stack_push-Within curly p ok)
        λ q h.
          bind-Within (Holding cfg (curly ∷ brackets p)) (IsParser cfg) (call client object_begin q)
            _ (call-Within client _ object_begin q (λ u. (HasStack-user q h.0.0 u, h.0.1)))
            λ q' g. Holding-state cfg q' maybe_object_key g refl

  pub open_array-Within :
      (p : Parser U) → HasStack cfg p → Within (IsParser cfg) (open_array cfg client p)
  unfolding open_array
  open_array-Within p ok =
      bind-Within _ (IsParser cfg) (stack_push cfg client square p) _
        (stack_push-Within square p ok)
        λ q h.
          bind-Within (Holding cfg (square ∷ brackets p)) (IsParser cfg) (call client array_begin q)
            _ (call-Within client _ array_begin q (λ u. (HasStack-user q h.0.0 u, h.0.1)))
            λ q' g. Holding-state cfg q' maybe_array_value g refl

  -- `[` in MAYBE_ARRAY_VALUE, which leaves the state as it is
  pub again_array-Within :
      (p : Parser U)
      → HasStack cfg p
      → p.state ≡ maybe_array_value
      → Within (IsParser cfg) (stack_push cfg client square p >>= call client array_begin)
  again_array-Within p ok e =
      bind-Within _ (IsParser cfg) (stack_push cfg client square p) (call client array_begin)
        (stack_push-Within square p ok)
        λ q h.
          call-Within client (IsParser cfg) array_begin q
            (λ u. record { has_stack = HasStack-user q h.0.0 u; fit = rw (h.1, e, h.0.1) refl })

  closed-Within :
      (in_object : ParserState) (e : Event D) (b : Bracket) (rest : List Bracket) (p : Parser U)
      → HasStack cfg p
      → brackets p ≡ b ∷ rest
      → fits in_object (curly ∷ []) ≡ true
      → Within (IsParser cfg) (call client e p >>= closed in_object maybe_array_comma)
  closed-Within in_object e b rest p ok top f =
      bind-Within (Holding cfg (b ∷ rest)) (IsParser cfg) (call client e p) _
        (call-Within client _ e p (λ u. (HasStack-user p ok u, top)))
        λ q h.
          let (n, size, at_n, below) = contents-cons q.stack q.stack_size b rest h.1 in
          rw (closed-eq q h.0 in_object maybe_array_comma n size) (record {
            has_stack = HasStack-state _ (HasStack-size q h.0 n (omega arith)) _;
            fit = closed_state-fits in_object (contents q.stack n) f;
          })

  pub close_object-Within :
      (p : Parser U) (rest : List Bracket)
      → HasStack cfg p
      → brackets p ≡ curly ∷ rest
      → Within (IsParser cfg) (close_object cfg client position p)
  unfolding close_object
  close_object-Within p rest ok top =
      rw (check_top-eq cfg client curly position p _ ok rest top)
        (closed-Within maybe_object_comma object_end curly rest p ok top refl)

  pub close_array-Within :
      (in_object : ParserState) (p : Parser U) (rest : List Bracket)
      → HasStack cfg p
      → brackets p ≡ square ∷ rest
      → fits in_object (curly ∷ []) ≡ true
      → Within (IsParser cfg) (close_array cfg client in_object position p)
  unfolding close_array
  close_array-Within in_object p rest ok top f =
      rw (check_top-eq cfg client square position p _ ok rest top)
        (closed-Within in_object array_end square rest p ok top f)

  pub primitive-Within :
      (e : Event D) (st : ParserState) (p : Parser U)
      → HasStack cfg p
      → fits st (brackets p) ≡ true
      → Within (IsParser cfg) (primitive cfg client e st p)
  primitive-Within e st p ok f =
      bind-Within (Holding cfg (brackets p)) (IsParser cfg) (call client e p) _
        (call-Within client _ e p (λ u. (HasStack-user p ok u, refl)))
        λ q h. Holding-state cfg q st h f
