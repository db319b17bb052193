-- ===== src/Commands/Required.antt =====
-- Theorems on __parse_args__ and required arguments (maubot/handlers/command.py).
use maubot.Base.{
  eq_refl, ◌∙◌, arith, ◌||◌, String, Option, none, some, ◌≡◌, List, [], ◌∷◌, Bool, true, false,
  ◌==◌,
}
use maubot.Base.Dict.{insert, lookup, lookup-insert}
use maubot.Commands.{
  returned, syntax_error, value_error, raised, Argument, Args, Python, Value, Attempt,
}
use maubot.Commands.Arguments.{parse_args, bind_one, bound, Parse, is_missing}

-- The name is the name of one of the arguments.
unfoldable pub names : String → List Argument → Bool
names n [] = false
names n (a ∷ rest) = a.name == n || names n rest

-- No two of the arguments have the same name.
unfoldable pub HasDistinctNames : List Argument → Type 0
HasDistinctNames [] = Unit
HasDistinctNames (a ∷ rest) = (names a.name rest ≡ false) × HasDistinctNames rest

-- The value that is bound to the name is not `None`.
unfoldable pub is_given : String → Args → Bool
is_given n args = elim (lookup n args) [ none ↦ false | some none ↦ false | some (some v) ↦ true ]

bind_one-bound :
    (usage : String) (a : Argument) (r : Attempt (String × Option Value))
    (next : Args → String → Parse) (args out : Args) (left : String)
    → bind_one usage a r next args ≡ bound out left
    → (v : Option Value) × (val : String) × (next (insert a.name v args) val ≡ bound out left)
      × (a.required ≡ true → is_missing v ≡ false)
unfolding bind_one
bind_one-bound usage a (returned (val, v)) next args out left e =
    (v, val, ground arith, λ r. ground arith)
bind_one-bound usage a (syntax_error message show) next args out left e = cc
bind_one-bound usage a value_error next args out left e = cc
bind_one-bound usage a raised next args out left e = cc

is_given-lookup :
    (n : String) (v : Option Value) (args : Args)
    → lookup n args ≡ some v
    → is_missing v ≡ false
    → is_given n args ≡ true
unfolding is_given is_missing
is_given-lookup n none args e h = cc
is_given-lookup n (some v) args e h = ground (arith, e)

module _ (py : Python) (usage : String) (out : Args) (left : String) where
  -- Parsing keeps what is bound to other names.
  parse_args-keeps :
      (list : List Argument) (args : Args) (val n : String)
      → parse_args py usage list args val ≡ bound out left
      → names n list ≡ false
      → lookup n out ≡ lookup n args
  unfolding parse_args names
  parse_args-keeps [] args val n e h = cc
  parse_args-keeps (a ∷ rest) args val n e h =
      let (v, val', next, _) = bind_one-bound usage a _ _ args out left e in
      parse_args-keeps rest (insert a.name v args) val' n next (ground arith)
      ∙ (lookup-insert a.name n v args ∙ ground arith)

  -- What the required arguments of the list are bound to is not `None`.
  unfoldable pub AreGiven : List Argument → Type 0
  AreGiven [] = Unit
  AreGiven (a ∷ rest) = (a.required ≡ true → is_given a.name out ≡ true) × AreGiven rest

  -- A parse that succeeds binds every required argument, if no two arguments share a name.
  parse_args-AreGiven :
      (list : List Argument) (args : Args) (val : String)
      → HasDistinctNames list
      → parse_args py usage list args val ≡ bound out left
      → AreGiven list
  unfolding parse_args AreGiven HasDistinctNames
  parse_args-AreGiven [] args val d e = tt
  parse_args-AreGiven (a ∷ rest) args val (fresh, d) e =
      let (v, val', next, given) = bind_one-bound usage a _ _ args out left e in
      (
        λ r.
            is_given-lookup a.name v out
              (parse_args-keeps rest (insert a.name v args) val' a.name next fresh
                ∙ (lookup-insert a.name a.name v args ∙ ground (arith, eq_refl a.name)))
              (given r),
        parse_args-AreGiven rest (insert a.name v args) val' d next,
      )
