-- ===== src/Base/Rules.antt =====
-- What a sequence of actions leaves behind, from what each of them leaves behind.
use Prim.Native.Nat.{ℕ}
use Prim.Native.String.{String}
use mathlib.Core.Bool.{Bool, true, false}
use mathlib.Core.Option.{none, some}
use native.Mathlib.Omega.{arith}
use text.Mathlib.Text.{◌==◌}
use text.Mathlib.TextEquality.{eq_iff}
use maubot.Base.Tests.{nat_eq, if◌then◌else◌}
use mathlib.Core.Logic.{◌⊎◌, inl, inr}
use mathlib.Core.Path.{◌≡◌, refl}
use maubot.Base.Exec.{Exc, Exec, Result, ok, err, continue, ◌>>=◌}

-- The state behind an action, whether it returned or raised, satisfies `K` if `P` held before.
pub record Leads {S A : Type 0} (P K : S → Type 0) (m : Exec S A) : Type 0 where
  pub at : (s : S) → P s → K (m s).1

module _ {S A B : Type 0} {P K : S → Type 0} where
  Leads-continue :
      (r : Result A) (f : A → Exec S B)
      → ((s : S) → P s → K s)
      → ((a : A) → Leads P K (f a))
      → (s : S) → P s
      → K (continue r f s).1
  Leads-continue (ok a) f enough kf = (kf a).at
  Leads-continue (err e) f enough kf = enough

  -- `P` lasts until the last action, and is enough where one raises.
  pub Leads-bind :
      (m : Exec S A) (f : A → Exec S B)
      → ((s : S) → P s → K s)
      → Leads P P m
      → ((a : A) → Leads P K (f a))
      → Leads P K (m >>= f)
  Leads-bind m f enough km kf = record {
    at = λ s h. Leads-continue (m s).0 f enough kf (m s).1 (km.at s h);
  }

pub Result-cases : {A : Type 0} (r : Result A) → ((v : A) × (r ≡ ok v)) ⊎ ((x : Exc) × (r ≡ err x))
Result-cases (ok v) = inl (v, refl)
Result-cases (err x) = inr (x, refl)

pub nat_eq_sound : (m n : ℕ) → nat_eq m n ≡ true → m ≡ n
nat_eq_sound m n e = ground arith

pub eq_sound : (s t : String) → (s == t) ≡ true → s ≡ t
eq_sound s t e = ground (arith, eq_iff s t)

pub some_injective : {A : Type 0} {a b : A} → some a ≡ some b → a ≡ b
some_injective e = cc e

-- What holds of both branches holds of the choice.
pub if_both {ℓ κ} :
    {A : Type ℓ} (Q : A → Type κ) (b : Bool) {x y : A} → Q x → Q y → Q (if b then x else y)
if_both Q true hx hy = hx
if_both Q false hx hy = hy

-- An action that is only done where a test is false.
pub unless_some :
    {A : Type 0} (b : Bool) {x y : A}
    → (if b then none else some x) ≡ some y
    → (b ≡ false) × (x ≡ y)
unless_some true e = cc
unless_some false e = (refl, some_injective e)
