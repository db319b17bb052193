-- ===== src/Commands/Turns.antt =====
-- Lemmas on what CommandHandler.__call__ does with the text that is left for a handler
-- (maubot/handlers/command.py).
use maubot.Base.{
  Bool-cases, arith, inr, ap, inl, ◌∙◌, ℕ, String, Option, none, some, ◌≡◌, refl, true, false, not,
  ◌&&◌, ◌==◌,
}
use maubot.Base.Text.{mem}
use maubot.Commands.{
  subcommands, Args, Handler, Config, Event, config, has_any, Outcome, called, Python,
}
use maubot.Commands.Words.{strip, is_empty}
use maubot.Commands.Arguments.{Parse, bound, refused, broken, parse_args}
use maubot.Commands.Usage.{usage}
use maubot.Commands.Outcomes.{finish-called}
use maubot.Commands.Dispatch.{or_parse, or_finish, serve, fall_through, finish}

-- A handler runs its own function: the text is matched to its arguments, behind which only space is
-- left if it must consume them; and where it has subcommands, which it tries first on one side of
-- the arguments, the text is one that they passed and none of them had to run.
pub record IsFinished (py : Python) (h : Handler) (f : ℕ) (who : Option ℕ) (out : Args)
    (Passed : String → Type 0) (args : Args) (val : String) : Type 0 where
  pub own : ((config h).func ≡ f) × ((config h).bound ≡ who)
  pub left : String
  pub matched : parse_args py (usage h) (config h).arguments args val ≡ bound out left
  pub consumed : (config h).must_consume_args && not (is_empty (strip left)) ≡ false
  pub before : not (config h).arg_fallthrough && has_any (subcommands h) ≡ true → Passed val
  pub behind :
      (config h).arg_fallthrough && has_any (subcommands h) ≡ true
      → ((config h).require_subcommand ≡ false) × Passed left

-- The message is not the bot's own and of a type that the handler takes.
unfoldable pub Accepts : Event → Config → Type 0
Accepts evt c = ((evt.sender == evt.own) ≡ false) × (mem evt.msgtype c.msgtypes ≡ true)

-- The ways in which a handler ends in a call of the function: in its subcommands, before or behind
-- its arguments, or by itself.
pub data Turn (py : Python) (h : Handler) (f : ℕ) (who : Option ℕ) (out : Args)
    (sub : Args → String → Option Outcome) (Passed : String → Type 0) (args : Args) (val : String)
    : Type 0 where
  early :
      not (config h).arg_fallthrough && has_any (subcommands h) ≡ true
      → sub args val ≡ some (called f who out)
      → Turn py h f who out sub Passed args val
  late :
      (args' : Args) (left : String)
      → (config h).arg_fallthrough && has_any (subcommands h) ≡ true
      → parse_args py (usage h) (config h).arguments args val ≡ bound args' left
      → sub args' left ≡ some (called f who out)
      → Turn py h f who out sub Passed args val
  own : IsFinished py h f who out Passed args val → Turn py h f who out sub Passed args val

module _ (py : Python) (h : Handler) (f : ℕ) (who : Option ℕ) (out : Args)
    (sub : Args → String → Option Outcome) (Passed : String → Type 0) where
  module _ (passes : (args : Args) (val : String) → sub args val ≡ none → Passed val) (args : Args)
      (val : String)
      (before : not (config h).arg_fallthrough && has_any (subcommands h) ≡ true → Passed val) where
    finished :
        (args' : Args) (left : String)
        → parse_args py (usage h) (config h).arguments args val ≡ bound args' left
        → ((config h).arg_fallthrough && has_any (subcommands h) ≡ true
            → ((config h).require_subcommand ≡ false) × Passed left)
        → finish h args' left ≡ called f who out
        → Turn py h f who out sub Passed args val
    finished args' left p behind e =
        let (func, who_eq, same, consumed) = finish-called f who out h args' left e in
        own (record {
          own = (func, who_eq);
          left = left;
          matched = p ∙ ap (λ a. bound a left) same;
          consumed = consumed;
          before = before;
          behind = behind;
        })

    fall_back :
        (args' : Args) (left : String) (r : Option Outcome)
        → parse_args py (usage h) (config h).arguments args val ≡ bound args' left
        → (config h).arg_fallthrough && has_any (subcommands h) ≡ true
        → sub args' left ≡ r
        → or_finish h (config h).require_subcommand args' left r ≡ called f who out
        → Turn py h f who out sub Passed args val
    unfolding or_finish
    fall_back args' left (some o) p tried s e = late args' left tried p (s ∙ ap some e)
    fall_back args' left none p tried s e =
        finished args' left p (λ _. (ground arith, passes args' left s)) (ground arith)

    fall_through-Turn :
        (p : Parse)
        → parse_args py (usage h) (config h).arguments args val ≡ p
        → fall_through h sub p ≡ called f who out
        → Turn py h f who out sub Passed args val
    unfolding fall_through
    fall_through-Turn (bound args' left) p e =
        elim (Bool-cases ((config h).arg_fallthrough && has_any (subcommands h))) [
          | inl tried ↦ fall_back args' left (sub args' left) p tried refl (ground arith)
          | inr untried ↦ finished args' left p (λ tried. cc) (ground arith)
        ]
    fall_through-Turn (refused message) p e = cc
    fall_through-Turn broken p e = cc

  module _ (passes : (args : Args) (val : String) → sub args val ≡ none → Passed val) (args : Args)
      (val : String) where
    or_parse-Turn :
        (r : Option Outcome)
        → not (config h).arg_fallthrough && has_any (subcommands h) ≡ true
        → sub args val ≡ r
        → or_parse r (fall_through h sub (parse_args py (usage h) (config h).arguments args val))
          ≡ called f who out
        → Turn py h f who out sub Passed args val
    unfolding or_parse
    or_parse-Turn (some o) tried s e = early tried (s ∙ ap some e)
    or_parse-Turn none tried s e =
        fall_through-Turn passes args val (λ _. passes args val s) _ refl e

    pub serve-Turn :
        serve py h sub args val ≡ called f who out → Turn py h f who out sub Passed args val
    unfolding serve
    serve-Turn e = elim (Bool-cases (not (config h).arg_fallthrough && has_any (subcommands h))) [
      | inl tried ↦ or_parse-Turn (sub args val) tried refl (ground arith)
      | inr untried ↦ fall_through-Turn passes args val (λ tried. cc) _ refl (ground arith)
    ]

  module _ (skips : (args : Args) (val : String) → Passed val → sub args val ≡ none) (args : Args)
      (val : String) where
    finish-calls :
        (d : IsFinished py h f who out Passed args val) → finish h out d.left ≡ called f who out
    unfolding finish
    finish-calls d = rw (d.consumed, d.own.0, d.own.1) refl

    fall_through-calls :
        (d : IsFinished py h f who out Passed args val)
        → fall_through h sub (parse_args py (usage h) (config h).arguments args val)
          ≡ called f who out
    unfolding fall_through or_finish
    fall_through-calls d =
        rw (d.matched) (elim (Bool-cases ((config h).arg_fallthrough && has_any (subcommands h))) [
          | inl tried ↦
              rw (tried, skips out d.left (d.behind tried).1, (d.behind tried).0) (finish-calls d)
          | inr untried ↦ rw untried (finish-calls d)
        ])

    pub Turn-serve :
        Turn py h f who out sub Passed args val → serve py h sub args val ≡ called f who out
    unfolding serve or_parse fall_through or_finish
    Turn-serve (early tried s) = rw (tried, s) refl
    Turn-serve (late args' left tried p s) = ground (arith, p, s, tried)
    Turn-serve (own d) =
        elim (Bool-cases (not (config h).arg_fallthrough && has_any (subcommands h))) [
          | inl tried ↦ rw (tried, skips args val (d.before tried)) (fall_through-calls d)
          | inr untried ↦ rw untried (fall_through-calls d)
        ]
