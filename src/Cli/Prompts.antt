-- ===== src/Cli/Prompts.antt =====
-- maubot/cli/cliq/cliq.py: which questions a command asks.
use maubot.Base.{
  String, ◌==◌, Bool, true, false, not, ◌||◌, Option, none, some, List, [], ◌∷◌, if◌then◌else◌,
  default,
}
use maubot.Base.Dict.{Dict, lookup, erase}
use maubot.Base.Text.{mem}

-- The value of an option.
pub data Value : Type 0 where
  null : Value
  flag : Bool → Value
  text : String → Value

-- required_unless: left out, an option, some options, or a dictionary.
pub data Unless : Type 0 where
  never : Unless
  one : String → Unless
  any : List String → Unless
  equals : Dict String → Unless

pub record Question : Type 0 where
  pub is_confirm : Bool
  pub required_unless : Unless

abbrev pub is_true : Value → Bool
is_true null = false
is_true (flag b) = b
is_true (text s) = not (s == "")

-- `value is not None and (questions[key]["type"] != "confirm" or value != "null")`
unfoldable pub is_given : Question → Value → Bool
is_given q null = false
is_given q (flag b) = true
is_given q (text s) = not q.is_confirm || not (s == "null")

-- `for v in required_unless:`; a KeyError ends it.
unfoldable pub any_true : Dict Value → List String → Bool
any_true kwargs [] = false
any_true kwargs (v ∷ vs) =
    let rest = any_true kwargs vs in
    elim (lookup v kwargs) [ none ↦ false | some value ↦ is_true value || rest ]

-- `kwargs.get(v, object()) == v` for the values of the dictionary
unfoldable pub any_equal : Dict Value → Dict String → Bool
any_equal kwargs [] = false
any_equal kwargs ((k, v) ∷ rest) = elim (lookup v kwargs) [
  | some (text s) ↦ (s == v) || any_equal kwargs rest
  | _ ↦ any_equal kwargs rest
]

unfoldable pub is_excused : Dict Value → Unless → Bool
unfolding any_true any_equal
is_excused kwargs never = false
is_excused kwargs (one o) = is_true (default null (lookup o kwargs))
is_excused kwargs (any os) = any_true kwargs os
is_excused kwargs (equals d) = any_equal kwargs d

-- One round of `for key, value in kwargs.items()`.
unfoldable pub ask_less : Dict Value → String → Value → Dict Question → Dict Question
unfolding is_given is_excused
ask_less kwargs key value questions = elim (lookup key questions) [
  | none ↦ questions
  | some q ↦
      if is_given q value || is_excused kwargs q.required_unless
      then erase key questions
      else questions
]

unfoldable pub remaining : Dict Value → Dict Value → Dict Question → Dict Question
unfolding ask_less
remaining kwargs [] questions = questions
remaining kwargs ((key, value) ∷ rest) questions =
    remaining kwargs rest (ask_less kwargs key value questions)

-- yesno: the click type of flags
unfoldable pub yesno : (String → String) → String → Option Bool
yesno lower val =
    if val == ""
    then none
    else if mem (lower val) ("true" ∷ "t" ∷ "yes" ∷ "y" ∷ [])
    then some true
    else if mem (lower val) ("false" ∷ "f" ∷ "no" ∷ "n" ∷ [])
    then some false
    else none

-- Required.validate of cliq/validators.py, around another validator or none: the message of the
-- ValidationError, or `none`.
unfoldable pub required : Option (String → Option String) → String → Option String
required proxy document =
    if document == ""
    then some "This field is required"
    else elim proxy [ none ↦ none | some validate ↦ validate document ]

-- path of cliq/validators.py: the absolute path, or the message of the BadParameter.
module _ (exists is_dir : String → Bool) (dirname : String → String) where
  unfoldable pub check_path : String → Option String
  check_path val =
      if exists val || is_dir (dirname val)
      then none
      else if exists (dirname val)
      then some "is not a directory"
      else some "does not exist"
