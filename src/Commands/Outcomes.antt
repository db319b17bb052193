-- ===== src/Commands/Outcomes.antt =====
-- Lemmas on the steps of CommandHandler.__call__ that end in a call of a plugin's function
-- (maubot/handlers/command.py).
use maubot.Base.{
  not, ◌&&◌, arith, ap, inl, inr, ◌⊎◌, ℕ, String, Option, none, some, ◌≡◌, refl, Bool, true, false,
}
use maubot.Commands.{Args, Handler, config, Outcome, called}
use maubot.Commands.Words.{strip, is_empty}
use maubot.Commands.Dispatch.{choose, finish, or_finish}

module _ (f : ℕ) (who : Option ℕ) (out : Args) where
  pub finish-called :
      (h : Handler) (args : Args) (left : String)
      → finish h args left ≡ called f who out
      → ((config h).func ≡ f)
        × ((config h).bound ≡ who)
        × (args ≡ out)
        × ((config h).must_consume_args && not (is_empty (strip left)) ≡ false)
  unfolding finish
  finish-called h args left e = (ground arith, ground arith, ground arith, ground arith)

  -- Either the subcommands made the call, or nothing was required of them and the function itself did.
  pub or_finish-called :
      (h : Handler) (required : Bool) (args : Args) (left : String) (r : Option Outcome)
      → or_finish h required args left r ≡ called f who out
      → (r ≡ some (called f who out))
        ⊎ ((required ≡ false) × (finish h args left ≡ called f who out))
  unfolding or_finish
  or_finish-called h required args left (some o) e = inl (ap some e)
  or_finish-called h true args left none e = cc
  or_finish-called h false args left none e = inr (refl, e)

  pub choose-called :
      (r : Option Bool) (o : Outcome) (rest : Option Outcome)
      → choose r o rest ≡ some (called f who out)
      → ((r ≡ some true) × (o ≡ called f who out))
        ⊎ ((r ≡ some false) × (rest ≡ some (called f who out)))
  unfolding choose
  choose-called none o rest e = cc
  choose-called (some true) o rest e = inl (refl, cc)
  choose-called (some false) o rest e = inr (refl, e)
