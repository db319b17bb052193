-- ===== src/World/Refs.antt =====
-- A Python `set` of plugin instances. Each entry keeps the hash that it was added under, and an
-- object is found by the hash that it has now and by `same`, which tells whether an object is the one
-- looked for or equal to it: DBInstance compares its fields (maubot/db/instance.py), and
-- `PluginInstance.__hash__` is the program's.
use maubot.Base.{
  ℕ, ◌≡◌, refl, Bool, true, false, ◌&&◌, ◌||◌, Option, none, some, List, [], ◌∷◌, arith, nat_eq,
  if◌then◌else◌,
}

abbrev pub RefSet : Type 0
RefSet = List (ℕ × ℕ)

-- `x in s`, for an object with the hash `h`
unfoldable pub holds : ℕ → (ℕ → Bool) → RefSet → Bool
holds h same [] = false
holds h same ((g, b) ∷ s) = (nat_eq g h && same b) || holds h same s

-- Whether the object itself stands in the set, under whatever hash.
unfoldable pub member : ℕ → RefSet → Bool
member a [] = false
member a ((g, b) ∷ s) = nat_eq b a || member a s

-- Whether it or an equal object does.
unfoldable pub has : (ℕ → Bool) → RefSet → Bool
has same [] = false
has same ((g, b) ∷ s) = same b || has same s

-- s.add(x): where an equal object with its hash is there, the set stays.
unfoldable pub add : ℕ → ℕ → (ℕ → Bool) → RefSet → RefSet
add h a same s = if holds h same s then s else (h, a) ∷ s

drop : ℕ → (ℕ → Bool) → RefSet → RefSet
drop h same [] = []
drop h same ((g, b) ∷ s) =
    let rest = drop h same s in if nat_eq g h && same b then s else (g, b) ∷ rest

-- s.remove(x): `none` is KeyError.
unfoldable pub remove : ℕ → (ℕ → Bool) → RefSet → Option RefSet
unfolding drop
remove h same s = if holds h same s then some (drop h same s) else none

has_of_holds : (h : ℕ) (same : ℕ → Bool) (s : RefSet) → holds h same s ≡ true → has same s ≡ true
unfolding holds has
has_of_holds h same [] e = cc
has_of_holds h same (x ∷ s) e = ground (arith, has_of_holds h same s)

pub has-add :
    (h a : ℕ) (same : ℕ → Bool) (s : RefSet) → same a ≡ true → has same (add h a same s) ≡ true
unfolding has add
has-add h a same s self = ground (arith, has_of_holds h same s, self)

-- Two tests that agree on the objects of the set find the same.
module _ (h : ℕ) (f g : ℕ → Bool) where
  holds-cong : (s : RefSet) → ((b : ℕ) → member b s ≡ true → f b ≡ g b) → holds h f s ≡ holds h g s
  unfolding holds member
  holds-cong [] e = refl
  holds-cong ((k, b) ∷ s) e =
      rw (e b (ground arith), holds-cong s (λ c there. e c (ground (arith, there)))) refl

  drop-cong : (s : RefSet) → ((b : ℕ) → member b s ≡ true → f b ≡ g b) → drop h f s ≡ drop h g s
  unfolding drop member
  drop-cong [] e = refl
  drop-cong ((k, b) ∷ s) e =
      rw (e b (ground arith), drop-cong s (λ c there. e c (ground (arith, there)))) refl

  pub remove-cong :
      (s : RefSet) → ((b : ℕ) → member b s ≡ true → f b ≡ g b) → remove h f s ≡ remove h g s
  unfolding remove
  remove-cong s e = rw (holds-cong s e, drop-cong s e) refl

  pub add-cong :
      (a : ℕ) (s : RefSet) → ((b : ℕ) → member b s ≡ true → f b ≡ g b) → add h a f s ≡ add h a g s
  unfolding add
  add-cong a s e = rw (holds-cong s e) refl

-- A set that an object was added to has it, where no other one counts as equal to it.
member_of_holds : (h a : ℕ) (s : RefSet) → holds h (λ b. nat_eq b a) s ≡ true → member a s ≡ true
unfolding holds member
member_of_holds h a [] e = cc
member_of_holds h a (x ∷ s) e = ground (arith, member_of_holds h a s)

pub member-add : (h a : ℕ) (s : RefSet) → member a (add h a (λ b. nat_eq b a) s) ≡ true
unfolding member add
member-add h a s = ground (arith, member_of_holds h a s)
