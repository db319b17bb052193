-- ===== src/Commands/Binding.antt =====
-- Theorems on CommandHandler.__get__ (maubot/handlers/command.py).
use maubot.Base.{◌∙◌, sym, ℕ, Option, none, some, ◌≡◌, refl, String}
use maubot.Commands.{Args, Handler, node, Handlers, hnil, hcons, Event, called, Python, config}
use maubot.Commands.Dispatch.{call, get, get_all}
use maubot.Commands.Leading.{
  name_in, behind_name, Serves, here, before, behind, SomeServes, first, later,
}
use maubot.Commands.Serving.{call-Serves}

-- Every handler of the tree is bound to `who`.
unfoldable mutual
  pub IsBoundTo : Option ℕ → Handler → Type 0
  IsBoundTo who (node c subs) = (c.bound ≡ who) × AreBoundTo who subs

  pub AreBoundTo : Option ℕ → Handlers → Type 0
  AreBoundTo who hnil = Unit
  AreBoundTo who (hcons h hs) = IsBoundTo who h × AreBoundTo who hs

mutual
  unfolding get IsBoundTo

  get-IsBoundTo : (who : ℕ) (h : Handler) → IsBoundTo none h → IsBoundTo (some who) (get who h)
  get-IsBoundTo who (node c subs) (free, h) = rw (free) (refl, get_all-AreBoundTo who subs h)

  get_all-AreBoundTo :
      (who : ℕ) (hs : Handlers) → AreBoundTo none hs → AreBoundTo (some who) (get_all who hs)
  get_all-AreBoundTo who hnil h = tt
  get_all-AreBoundTo who (hcons g gs) (h, hs) =
      (get-IsBoundTo who g h, get_all-AreBoundTo who gs hs)

module _ (py : Python) (evt : Event) (f : ℕ) (w : Option ℕ) (out : Args) (who : Option ℕ) where
  mutual
    unfolding IsBoundTo config

    Serves-IsBoundTo :
        (h : Handler) (args : Args) (remaining : Option String)
        → Serves py evt f w out h args remaining
        → IsBoundTo who h
        → w ≡ who
    Serves-IsBoundTo _ _ _ (here c subs args remaining val accepts entered d) (b, _) =
        sym d.own.1 ∙ b
    Serves-IsBoundTo _ _ _ (before c subs args remaining val accepts entered tried s) (_, b) =
        SomeServes-AreBoundTo subs (name_in val) args (behind_name val) s b
    Serves-IsBoundTo _ _ _ (behind c subs args remaining val args' left accepts entered tried p s)
          (_, b) =
        SomeServes-AreBoundTo subs (name_in left) args' (behind_name left) s b

    SomeServes-AreBoundTo :
        (hs : Handlers) (command : String) (args : Args) (left : String)
        → SomeServes py evt f w out hs command args left
        → AreBoundTo who hs
        → w ≡ who
    SomeServes-AreBoundTo _ _ _ _ (first h hs command args left match s) (b, _) =
        Serves-IsBoundTo h args (some left) s b
    SomeServes-AreBoundTo _ _ _ _ (later h hs command args left other s) (_, b) =
        SomeServes-AreBoundTo hs command args left s b

-- A handler that a plugin object reads from its class calls the functions of all its subcommands with
-- that object.
pub call-get :
    (py : Python) (evt : Event) (who : ℕ) (h : Handler) (args : Args) (remaining : Option String)
    (f : ℕ) (w : Option ℕ) (out : Args)
    → IsBoundTo none h
    → call py evt (get who h) args remaining ≡ called f w out
    → w ≡ some who
call-get py evt who h args remaining f w out free e =
    Serves-IsBoundTo py evt f w out (some who) (get who h) args remaining
      ((call-Serves py evt (get who h) args remaining f w out).0 e) (get-IsBoundTo who h free)
