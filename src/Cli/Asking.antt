-- ===== src/Cli/Asking.antt =====
-- Theorems on the questions that a command asks (maubot/cli/cliq/cliq.py).
use maubot.Base.{
  String, ◌==◌, ◌||◌, Option, none, some, [], ◌∷◌, ◌≡◌, refl, arith, ◌∙◌, if◌then◌else◌, Bool-cases,
  inl, inr, eq_iff, sym, subst,
}
use maubot.Base.Rules.{eq_sound}
use maubot.Base.Dict.{Dict, lookup, lookup-erase}
use maubot.Cli.Prompts.{Value, Question, is_given, is_excused, ask_less, remaining}

-- A key stands in a dictionary once.
abbrev pub IsDict : Dict Value → Type 0
IsDict [] = Unit {0}
IsDict ((k, v) ∷ rest) = (lookup k rest ≡ none) × IsDict rest

-- What is left of a question, from the value of its option alone.
abbrev pub left : Dict Value → Option Question → Option Value → Option Question
left kwargs none value = none
left kwargs (some q) none = some q
left kwargs (some q) (some value) =
    if is_given q value || is_excused kwargs q.required_unless then none else some q

module _ (kwargs : Dict Value) where
  left-none : (found : Option Question) → left kwargs found none ≡ found
  left-none none = refl
  left-none (some q) = refl

  lookup-ask_less :
      (key k : String) (value : Value) (questions : Dict Question)
      → lookup k (ask_less kwargs key value questions)
        ≡ (if key == k then left kwargs (lookup k questions) (some value) else lookup k questions)
  unfolding ask_less
  lookup-ask_less key k value questions = ground (arith, eq_iff key k, lookup-erase key k questions)

  -- The loop over the options, which takes questions away one by one, agrees with the test of one
  -- question. A dictionary holds each key once.
  pub lookup-remaining :
      (rest : Dict Value) (questions : Dict Question) (k : String)
      → IsDict rest
      → lookup k (remaining kwargs rest questions)
        ≡ left kwargs (lookup k questions) (lookup k rest)
  unfolding remaining lookup
  lookup-remaining [] questions k h = sym (left-none (lookup k questions))
  lookup-remaining ((key, value) ∷ rest) questions k (once, h) =
      lookup-remaining rest (ask_less kwargs key value questions) k h
      ∙ rw (lookup-ask_less key k value questions) (elim (Bool-cases (key == k)) [
        | inl same ↦
            let absent = subst (λ j. lookup j rest ≡ none) (eq_sound key k same) once in
            rw (same, absent) (left-none (left kwargs (lookup k questions) (some value)))
        | inr other ↦ rw other refl
      ])
