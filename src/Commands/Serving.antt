-- ===== src/Commands/Serving.antt =====
-- Theorems on whose function CommandHandler.__call__ reaches (maubot/handlers/command.py).
use maubot.Base.{arith, inr, inl, ℕ, String, Option, none, some, ◌≡◌, ◌↔◌, refl, true, false, Bool}
use maubot.Commands.{
  subcommands, Args, Config, Handler, node, Handlers, hnil, hcons, config, Event, Outcome, called,
  Python,
}
use maubot.Commands.Outcomes.{choose-called}
use maubot.Commands.Turns.{Accepts, Turn, early, late, own, serve-Turn, Turn-serve}
use maubot.Commands.Dispatch.{call_one, choose, entry, enter, call, handle, serve, is_match}
use maubot.Commands.Leading.{
  name_in, behind_name, NoneMatches, Passed, Serves, here, before, behind, SomeServes, first, later,
}

choose-none :
    (r : Option Bool) (o : Outcome) (rest : Option Outcome)
    → choose r o rest ≡ none
    → (r ≡ some false) × (rest ≡ none)
unfolding choose
choose-none none o rest e = cc
choose-none (some true) o rest e = cc
choose-none (some false) o rest e = (refl, e)

module _ (py : Python) (evt : Event) where
  NoneMatches-of :
      (subs : Handlers) (command : String) (args : Args) (left : String)
      → call_one py evt subs command args left ≡ none
      → NoneMatches subs command
  unfolding call_one NoneMatches
  NoneMatches-of hnil command args left e = tt
  NoneMatches-of (hcons h hs) command args left e =
      let (other, rest) = choose-none (is_match (config h) command) _ _ e in
      (other, NoneMatches-of hs command args left rest)

  call_one-none :
      (subs : Handlers) (command : String) (args : Args) (left : String)
      → NoneMatches subs command
      → call_one py evt subs command args left ≡ none
  unfolding call_one NoneMatches choose
  call_one-none hnil command args left n = refl
  call_one-none (hcons h hs) command args left (other, n) =
      rw other (call_one-none hs command args left n)

  -- __call_subcommand__ of a handler with these subcommands
  abbrev sub_of : Handlers → Args → String → Option Outcome
  sub_of subs args val = call_one py evt subs (name_in val) args (behind_name val)

  module _ (h : Handler) (sub : Args → String → Option Outcome) where
    enter-called :
        (go : String → Outcome) (r : Option (Option String)) (f : ℕ) (who : Option ℕ) (out : Args)
        → enter go r ≡ called f who out
        → (val : String) × (r ≡ some (some val)) × (go val ≡ called f who out)
    unfolding enter
    enter-called go none f who out e = cc
    enter-called go (some none) f who out e = cc
    enter-called go (some (some val)) f who out e = (val, refl, e)

    handle-called :
        (args : Args) (remaining : Option String) (f : ℕ) (who : Option ℕ) (out : Args)
        → handle py evt h sub args remaining ≡ called f who out
        → Accepts evt (config h)
          × ((val : String) × (entry py (config h) evt remaining ≡ some (some val))
              × (serve py h sub args val ≡ called f who out))
    unfolding handle Accepts
    handle-called args remaining f who out e = (
      (ground arith, ground arith),
      enter-called (λ val. serve py h sub args val) (entry py (config h) evt remaining) f who out
          (ground arith),
    )

    handle-calls :
        (args : Args) (remaining : Option String) (val : String) (o : Outcome)
        → Accepts evt (config h)
        → entry py (config h) evt remaining ≡ some (some val)
        → serve py h sub args val ≡ o
        → handle py evt h sub args remaining ≡ o
    unfolding handle Accepts enter
    handle-calls args remaining val o (other, takes) e s = rw (other, takes, e) s

module _ (py : Python) (evt : Event) (f : ℕ) (who : Option ℕ) (out : Args) where
  mutual
    unfolding call config subcommands

    served :
        (h : Handler) (args : Args) (remaining : Option String)
        → call py evt h args remaining ≡ called f who out
        → Serves py evt f who out h args remaining
    served (node c subs) args remaining e =
        let (accepts, (val, entered, run)) =
          handle-called py evt (node c subs) (sub_of py evt subs) args remaining f who out e in
        elim (serve-Turn py (node c subs) f who out (sub_of py evt subs) (Passed subs)
          (λ args' val'. NoneMatches-of py evt subs (name_in val') args' (behind_name val')) args
          val run) [
            | early tried s ↦
                before c subs args remaining val accepts entered tried
                  (some_served subs (name_in val) args (behind_name val) s)
            | late args' left tried p s ↦
                behind c subs args remaining val args' left accepts entered tried p
                  (some_served subs (name_in left) args' (behind_name left) s)
            | own d ↦ here c subs args remaining val accepts entered d
          ]

    some_served :
        (subs : Handlers) (command : String) (args : Args) (left : String)
        → call_one py evt subs command args left ≡ some (called f who out)
        → SomeServes py evt f who out subs command args left
    some_served hnil command args left e = cc
    some_served (hcons h hs) command args left e =
        elim (choose-called f who out (is_match (config h) command) _ _ e) [
          | inl (match, run) ↦ first h hs command args left match (served h args (some left) run)
          | inr (other, rest) ↦
              later h hs command args left other (some_served hs command args left rest)
        ]

  call-Turn :
      (c : Config) (subs : Handlers) (args : Args) (remaining : Option String) (val : String)
      → Accepts evt c
      → entry py c evt remaining ≡ some (some val)
      → Turn py (node c subs) f who out (sub_of py evt subs) (Passed subs) args val
      → call py evt (node c subs) args remaining ≡ called f who out
  unfolding call config
  call-Turn c subs args remaining val accepts entered turn =
      handle-calls py evt (node c subs) (sub_of py evt subs) args remaining val _ accepts entered (
        Turn-serve py (node c subs) f who out (sub_of py evt subs) (Passed subs)
          (λ args' val'. call_one-none py evt subs (name_in val') args' (behind_name val')) args val
          turn)

  mutual
    unfolding call config choose subcommands

    calls :
        (h : Handler) (args : Args) (remaining : Option String)
        → Serves py evt f who out h args remaining
        → call py evt h args remaining ≡ called f who out
    calls _ _ _ (here c subs args remaining val accepts entered d) =
        call-Turn c subs args remaining val accepts entered (own d)
    calls _ _ _ (before c subs args remaining val accepts entered tried s) =
        call-Turn c subs args remaining val accepts entered
          (early tried (some_calls subs (name_in val) args (behind_name val) s))
    calls _ _ _ (behind c subs args remaining val args' left accepts entered tried p s) =
        call-Turn c subs args remaining val accepts entered
          (late args' left tried p (some_calls subs (name_in left) args' (behind_name left) s))

    some_calls :
        (subs : Handlers) (command : String) (args : Args) (left : String)
        → SomeServes py evt f who out subs command args left
        → call_one py evt subs command args left ≡ some (called f who out)
    some_calls _ _ _ _ (first h hs command args left match s) =
        rw (match, calls h args (some left) s) refl
    some_calls _ _ _ _ (later h hs command args left other s) =
        rw other (some_calls hs command args left s)

-- A call of a handler ends in a call of a plugin's function, at these arguments, if and only if the
-- message leads there: each handler on the way takes messages of this type, and not from the bot; the
-- one that is called takes the text it is given or, without one, what is behind its name in the
-- message; the next one is the first subcommand that has the name which comes next, behind the
-- arguments of the handler above, or before them where that one has no arg_fallthrough; and the last
-- one, whose function it is, finds its arguments, with only space behind them if it must consume the
-- text, while the name at that same place is none of its subcommands', and it requires none of those
-- that it tries behind its arguments.
pub call-Serves :
    (py : Python) (evt : Event) (h : Handler) (args : Args) (remaining : Option String) (f : ℕ)
    (who : Option ℕ) (out : Args)
    → (call py evt h args remaining ≡ called f who out) ↔ Serves py evt f who out h args remaining
call-Serves py evt h args remaining f who out =
    (served py evt f who out h args remaining, calls py evt f who out h args remaining)
