-- ===== src/Plugin/Scheduler/Cancelling.antt =====
-- Theorems on the tasks of BasicScheduler and on its `stop` (maubot/scheduler.py).
use maubot.Base.{
  ◌≢◌, ◌∙◌, inl, inr, Bool-cases, ℕ, ◌<◌, List, [], ◌∷◌, ◌++◌, ◌≡◌, refl, Bool, true, false, nat_eq,
  ◌||◌, arith,
}
use maubot.Plugin.Scheduler.{
  Sched, init, register_task, discard, finish, cancel_all, stop, Step, registers, finishes, stops,
  Steps, stay, then,
}

unfoldable pub is_in : ℕ → List ℕ → Bool
is_in t [] = false
is_in t (u ∷ us) = nat_eq u t || is_in t us

is_in-append : (t u : ℕ) (us : List ℕ) → is_in t (us ++ (u ∷ [])) ≡ (is_in t us || nat_eq u t)
unfolding is_in
is_in-append t u [] = ground arith
is_in-append t u (v ∷ us) = ground (arith, is_in-append t u us)

is_in-discard : (t u : ℕ) (us : List ℕ) → nat_eq u t ≡ false → is_in t (discard u us) ≡ is_in t us
unfolding is_in discard
is_in-discard t u [] e = refl
is_in-discard t u (v ∷ us) e = ground (arith, is_in-discard t u us e, e)

cancel_all-is_in :
    (t : ℕ) (us : List ℕ) (f : ℕ → Bool) → is_in t us ≡ true → cancel_all us f t ≡ true
unfolding is_in cancel_all
cancel_all-is_in t [] f e = cc
cancel_all-is_in t (u ∷ us) f e = ground (arith, cancel_all-is_in t us f, e)

apart : (m n : ℕ) → nat_eq m n ≡ false → m ≢ n
apart m n e = ground (arith, e)

-- Every task that was made and is not done is in the set.
record IsTracked (s : Sched) : Type 0 where
  tracked : (t : ℕ) → t < s.next → s.done t ≡ false → is_in t s.tasks ≡ true

Step-IsTracked : (s s' : Sched) → Step s s' → IsTracked s → IsTracked s'
unfolding register_task finish stop
Step-IsTracked _ _ (registers s) h = record {
  tracked = λ t lt open_task. elim (Bool-cases (nat_eq s.next t)) [
    | inl same ↦ ground (arith, is_in-append t s.next s.tasks, same)
    | inr other ↦ ground (
      arith,
      is_in-append t s.next s.tasks,
      h.tracked t (omega (arith, lt, apart s.next t other)) (ground (arith, other, open_task)),
    )
  ];
}
Step-IsTracked _ _ (finishes u s) h = record {
  tracked = λ t lt open_task. elim (Bool-cases (nat_eq u t)) [
    | inl same ↦ ground (arith, same, open_task)
    | inr other ↦
        is_in-discard t u s.tasks other ∙ h.tracked t lt (ground (arith, other, open_task))
  ];
}
Step-IsTracked _ _ (stops s) h = record { tracked = h.tracked }

Steps-IsTracked : (s t : Sched) → Steps s t → IsTracked s → IsTracked t
Steps-IsTracked s _ stay h = h
Steps-IsTracked s t (then {t = m} one rest) h = Steps-IsTracked m t rest (Step-IsTracked s m one h)

init-IsTracked : IsTracked init
unfolding init
init-IsTracked = record { tracked = λ t lt e. ground (arith, lt) }

-- Whenever `stop` is called, it cancels every task that the scheduler has made and that is not done.
pub stop-cancels :
    (s : Sched) (t : ℕ) → Steps init s → t < s.next → s.done t ≡ false → (stop s).cancelled t ≡ true
unfolding stop
stop-cancels s t steps lt open_task =
    cancel_all-is_in t s.tasks s.cancelled
      ((Steps-IsTracked init s steps init-IsTracked).tracked t lt open_task)
