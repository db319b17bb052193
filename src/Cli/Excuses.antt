-- ===== src/Cli/Excuses.antt =====
-- Which questions a command asks, without the loop of maubot/cli/cliq/cliq.py.
use maubot.Base.{
  subst, sym, String, ◌==◌, ◌||◌, Option, none, some, List, [], ◌∷◌, ◌≡◌, ◌≢◌, ◌↔◌, ◌⊎◌, refl,
  arith, Bool, true, false, Bool-cases, Option-cases, inl, inr, eq_iff, ◌∙◌, ap,
}
use maubot.Base.Rules.{eq_sound, some_injective}
use maubot.Base.Dict.{Dict, lookup}
use maubot.Cli.Prompts.{
  Value, null, flag, text, Unless, never, one, any, equals, Question, is_true, is_given, any_true,
  any_equal, is_excused, remaining,
}
use maubot.Cli.Asking.{IsDict, left, lookup-remaining}

-- A value that is true in Python.
pub data IsTruthy : Value → Type 0 where
  switched_on : IsTruthy (flag true)
  not_empty : (s : String) → s ≢ "" → IsTruthy (text s)

-- An answer to a question: any value, but not the text "null" to one for a confirmation.
pub data Answers (q : Question) : Value → Type 0 where
  by_flag : (b : Bool) → Answers q (flag b)
  by_text : (s : String) → q.is_confirm ≡ false → Answers q (text s)
  by_choice : (s : String) → s ≢ "null" → Answers q (text s)

module _ (kwargs : Dict Value) where
  -- Some option of the list is true, and the command has all those before it.
  pub data AnyTrue : List String → Type 0 where
    first :
        (o : String) (os : List String) (v : Value)
        → lookup o kwargs ≡ some v
        → IsTruthy v
        → AnyTrue (o ∷ os)
    later :
        (o : String) (os : List String) (v : Value)
        → lookup o kwargs ≡ some v
        → AnyTrue os
        → AnyTrue (o ∷ os)

  -- Some value of the dictionary is the name of an option, and that option has its own name as value.
  pub data NamesItself : Dict String → Type 0 where
    this :
        (k v : String) (d : Dict String)
        → lookup v kwargs ≡ some (text v)
        → NamesItself ((k, v) ∷ d)
    other : (k v : String) (d : Dict String) → NamesItself d → NamesItself ((k, v) ∷ d)

  pub data Excuses : Unless → Type 0 where
    by_one : (o : String) (v : Value) → lookup o kwargs ≡ some v → IsTruthy v → Excuses (one o)
    by_any : (os : List String) → AnyTrue os → Excuses (any os)
    by_name : (d : Dict String) → NamesItself d → Excuses (equals d)

  -- The option of the question has no answer, and no other option excuses it; or there is no option.
  pub data IsOpen (q : Question) : Option Value → Type 0 where
    no_option : IsOpen q none
    unanswered :
        (v : Value) → (Answers q v → ⊥) → (Excuses q.required_unless → ⊥) → IsOpen q (some v)

  is_true-IsTruthy : (v : Value) → is_true v ≡ true → IsTruthy v
  is_true-IsTruthy null e = cc
  is_true-IsTruthy (flag true) e = switched_on
  is_true-IsTruthy (flag false) e = cc
  is_true-IsTruthy (text s) e = not_empty s (λ same. ground (arith, e, same, eq_iff s ""))

  IsTruthy-is_true : (v : Value) → IsTruthy v → is_true v ≡ true
  IsTruthy-is_true _ switched_on = refl
  IsTruthy-is_true _ (not_empty s ne) = ground (arith, eq_iff s "", ne)

  is_given-Answers : (q : Question) (v : Value) → is_given q v ≡ true → Answers q v
  unfolding is_given
  is_given-Answers q null e = cc
  is_given-Answers q (flag b) e = by_flag b
  is_given-Answers q (text s) e = elim (Bool-cases q.is_confirm) [
    | inl confirm ↦ by_choice s (λ same. ground (arith, e, confirm, same, eq_iff s "null"))
    | inr plain ↦ by_text s plain
  ]

  Answers-is_given : (q : Question) (v : Value) → Answers q v → is_given q v ≡ true
  unfolding is_given
  Answers-is_given q _ (by_flag b) = refl
  Answers-is_given q _ (by_text s plain) = rw plain refl
  Answers-is_given q _ (by_choice s ne) = ground (arith, eq_iff s "null", ne)

  any_true-AnyTrue : (os : List String) → any_true kwargs os ≡ true → AnyTrue os
  unfolding any_true
  any_true-AnyTrue [] e = cc
  any_true-AnyTrue (o ∷ os) e = elim (Option-cases (lookup o kwargs)) [
    | inl absent ↦ absurd (ground (arith, e, absent))
    | inr (v, there) ↦ elim (Bool-cases (is_true v)) [
      | inl on ↦ first o os v there (is_true-IsTruthy v on)
      | inr off ↦ later o os v there (any_true-AnyTrue os (ground (arith, e, there, off)))
    ]
  ]

  AnyTrue-any_true : (os : List String) → AnyTrue os → any_true kwargs os ≡ true
  unfolding any_true
  AnyTrue-any_true _ (first o os v there on) = ground (arith, there, IsTruthy-is_true v on)
  AnyTrue-any_true _ (later o os v there rest) = ground (arith, there, AnyTrue-any_true os rest)

  any_equal-cases :
      (k v : String) (d : Dict String) (found : Option Value)
      → lookup v kwargs ≡ found
      → any_equal kwargs ((k, v) ∷ d) ≡ true
      → (lookup v kwargs ≡ some (text v)) ⊎ (any_equal kwargs d ≡ true)
  unfolding any_equal
  any_equal-cases k v d none f e = inr (ground (arith, e, f))
  any_equal-cases k v d (some null) f e = inr (ground (arith, e, f))
  any_equal-cases k v d (some (flag b)) f e = inr (ground (arith, e, f))
  any_equal-cases k v d (some (text s)) f e = elim (Bool-cases (s == v)) [
    | inl same ↦ inl (f ∙ ap (λ t. some (text t)) (eq_sound s v same))
    | inr differs ↦ inr (ground (arith, e, f, differs))
  ]

  any_equal-later :
      (k v : String) (d : Dict String) (found : Option Value)
      → lookup v kwargs ≡ found
      → any_equal kwargs d ≡ true
      → any_equal kwargs ((k, v) ∷ d) ≡ true
  unfolding any_equal
  any_equal-later k v d none f e = ground (arith, e, f)
  any_equal-later k v d (some null) f e = ground (arith, e, f)
  any_equal-later k v d (some (flag b)) f e = ground (arith, e, f)
  any_equal-later k v d (some (text s)) f e = ground (arith, e, f)

  any_equal-NamesItself : (d : Dict String) → any_equal kwargs d ≡ true → NamesItself d
  unfolding any_equal
  any_equal-NamesItself [] e = cc
  any_equal-NamesItself ((k, v) ∷ d) e = elim (any_equal-cases k v d (lookup v kwargs) refl e) [
    | inl here ↦ this k v d here
    | inr rest ↦ other k v d (any_equal-NamesItself d rest)
  ]

  NamesItself-any_equal : (d : Dict String) → NamesItself d → any_equal kwargs d ≡ true
  unfolding any_equal
  NamesItself-any_equal _ (this k v d there) = ground (arith, there, eq_iff v v)
  NamesItself-any_equal _ (other k v d rest) =
      any_equal-later k v d (lookup v kwargs) refl (NamesItself-any_equal d rest)

  is_excused-Excuses : (u : Unless) → is_excused kwargs u ≡ true → Excuses u
  unfolding is_excused
  is_excused-Excuses never e = cc
  is_excused-Excuses (one o) e = elim (Option-cases (lookup o kwargs)) [
    | inl absent ↦ absurd (ground (arith, e, absent))
    | inr (v, there) ↦ by_one o v there (is_true-IsTruthy v (ground (arith, e, there)))
  ]
  is_excused-Excuses (any os) e = by_any os (any_true-AnyTrue os e)
  is_excused-Excuses (equals d) e = by_name d (any_equal-NamesItself d e)

  Excuses-is_excused : (u : Unless) → Excuses u → is_excused kwargs u ≡ true
  unfolding is_excused
  Excuses-is_excused _ (by_one o v there on) = rw there (IsTruthy-is_true v on)
  Excuses-is_excused _ (by_any os h) = AnyTrue-any_true os h
  Excuses-is_excused _ (by_name d h) = NamesItself-any_equal d h

  closed_out : (x y : Bool) → x || y ≡ false → (x ≡ false) × (y ≡ false)
  closed_out x y e = (ground arith, ground arith)

  left-IsOpen :
      (found : Option Question) (value : Option Value) (q : Question)
      → left kwargs found value ≡ some q
      → (found ≡ some q) × IsOpen q value
  left-IsOpen none value q e = cc
  left-IsOpen (some p) none q e = (e, no_option)
  left-IsOpen (some p) (some v) q e =
      elim (Bool-cases (is_given p v || is_excused kwargs p.required_unless)) [
        | inl done ↦ absurd (ground (arith, e, done))
        | inr still ↦
            let same : p ≡ q = some_injective (ground (arith, e, still)) in
            let (no_answer, no_excuse) =
              closed_out (is_given p v) (is_excused kwargs p.required_unless) still in
            (
              ap some same,
              subst (λ r. IsOpen r (some v)) same
                  (unanswered v (λ a. cc (no_answer, Answers-is_given p v a))
                    (λ x. cc (no_excuse, Excuses-is_excused p.required_unless x))),
            )
      ]

  IsOpen-left :
      (value : Option Value) (q : Question) → IsOpen q value → left kwargs (some q) value ≡ some q
  IsOpen-left _ q no_option = refl
  IsOpen-left _ q (unanswered v no_answer no_excuse) = elim (Bool-cases (is_given q v)) [
    | inl given ↦ absurd (no_answer (is_given-Answers q v given))
    | inr free ↦ elim (Bool-cases (is_excused kwargs q.required_unless)) [
      | inl excused ↦ absurd (no_excuse (is_excused-Excuses q.required_unless excused))
      | inr due ↦ rw (free, due) refl
    ]
  ]

-- A question is asked if and only if the command has it, and it has no option, or its option has no
-- answer and no other option excuses it. An excuse is an option that is true, the first true one of a
-- list in which the command has all those before it, or, for a dictionary, an option that has its own
-- name as value and is named by a value of the dictionary. A dictionary of options holds each key once.
pub remaining-asks :
    (kwargs : Dict Value) (questions : Dict Question) (k : String) (q : Question)
    → IsDict kwargs
    → (lookup k (remaining kwargs kwargs questions) ≡ some q)
      ↔ ((lookup k questions ≡ some q) × IsOpen kwargs q (lookup k kwargs))
remaining-asks kwargs questions k q h =
    let same = lookup-remaining kwargs kwargs questions k h in
    (
      λ e. left-IsOpen kwargs (lookup k questions) (lookup k kwargs) q (sym same ∙ e),
      λ (has, is_open).
          same
          ∙ (ap (λ f. left kwargs f (lookup k kwargs)) has
              ∙ IsOpen-left kwargs (lookup k kwargs) q is_open),
    )
