-- ===== src/Base/Texts.antt =====
-- Lemmas on texts that are put together.
use Prim.Native.Nat.{◌+◌}
use Prim.Native.String.{String}
use mathlib.Core.Path.{◌≡◌, refl, ap}
use native.Mathlib.Omega.{arith}
use maubot.Base.Text.{append, size, drop, begins_with}

pub begins_with-append :
    (base s t : String) → begins_with (append base s) (append base t) ≡ begins_with s t
unfolding begins_with append
begins_with-append String.[] s t = refl
begins_with-append (String.◌∷◌ c base) s t = ground (arith, begins_with-append base s t)

pub size-slashed : (s : String) → size (append s "/") ≡ size s + 1
unfolding size append
size-slashed String.[] = refl
size-slashed (String.◌∷◌ c s) = omega (arith, size-slashed s)

pub size-append : (s t : String) → size (append s t) ≡ size s + size t
unfolding size append
size-append String.[] t = omega arith
size-append (String.◌∷◌ c s) t = omega (arith, size-append s t)

pub drop-append : (s t : String) → drop (size s) (append s t) ≡ t
unfolding drop size append
drop-append String.[] t = refl
drop-append (String.◌∷◌ c s) t = drop-append s t

pub append_assoc : (s t u : String) → append (append s t) u ≡ append s (append t u)
unfolding append
append_assoc String.[] t u = refl
append_assoc (String.◌∷◌ c s) t u = ap (λ r. String.◌∷◌ c r) (append_assoc s t u)
