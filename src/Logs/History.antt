-- ===== src/Logs/History.antt =====
-- Theorems on the lines that LogCollector keeps (maubot/management/api/log.py).
use maubot.Base.{
  subst, sym, none, some, String, ℕ, Bool, List, [], ◌∷◌, ◌++◌, ◌≡◌, ◌≤◌, refl, ap, ◌∙◌, true,
  false,
}
use maubot.Base.Rules.{if_both}
use maubot.Base.Lists.{length}
use maubot.Logs.{
  Logs, max_lines, push, silent, emit, send, send_next, open_socket, on_text, heard, accept,
  close_socket, Step, emits, sends, opens, hears, closes, Steps, stay, then,
}
use maubot.Logs.Buffer.{push_all, latest, push_all-refines}

send_next-lines : (scheduled : List String) (s : Logs) → (send_next scheduled s).lines ≡ s.lines
unfolding send_next
send_next-lines [] s = refl
send_next-lines (content ∷ rest) s = refl

heard-lines : (b : Bool) (ws : ℕ) (s : Logs) → (heard b ws s).lines ≡ s.lines
unfolding heard accept
heard-lines true ws s = refl
heard-lines false ws s = if_both (λ (t : Logs). t.lines ≡ s.lines) (s.authenticated ws) refl refl

module _ (is_valid : String → Bool) where
  -- The records that are logged in a step and have a text, and in some steps in order.
  unfoldable pub logged : {s t : Logs} → Step is_valid s t → List String
  logged (emits none s) = []
  logged (emits (some content) s) = content ∷ []
  logged (sends s) = []
  logged (opens ws s) = []
  logged (hears ws text s) = []
  logged (closes ws s) = []

  unfoldable pub all_logged : {s t : Logs} → Steps is_valid s t → List String
  unfolding logged
  all_logged stay = []
  all_logged (then one rest) = logged one ++ all_logged rest

  Step-lines :
      {s t : Logs} (one : Step is_valid s t) → t.lines ≡ push_all max_lines s.lines (logged one)
  unfolding logged push_all emit send open_socket on_text close_socket
  Step-lines (emits none s) = refl
  Step-lines (emits (some content) s) = refl
  Step-lines (sends s) = send_next-lines s.scheduled s
  Step-lines (opens ws s) = refl
  Step-lines (hears ws text s) = heard-lines (is_valid text) ws _
  Step-lines (closes ws s) = refl

  push_all-append :
      (kept xs ys : List String)
      → push_all max_lines kept (xs ++ ys) ≡ push_all max_lines (push_all max_lines kept xs) ys
  unfolding push_all
  push_all-append kept [] ys = refl
  push_all-append kept (x ∷ xs) ys = push_all-append (push max_lines kept x) xs ys

  Steps-lines :
      {s t : Logs} (steps : Steps is_valid s t)
      → t.lines ≡ push_all max_lines s.lines (all_logged steps)
  unfolding all_logged push_all
  Steps-lines stay = refl
  Steps-lines {s} (then one rest) =
      Steps-lines rest
      ∙ (ap (λ kept. push_all max_lines kept (all_logged rest)) (Step-lines one)
          ∙ sym (push_all-append s.lines (logged one) (all_logged rest)))

  -- From the start on, whatever else happens, the handler keeps the last 2048 of the records that were
  -- logged and whose text could be made, in their order, and so at most 2048.
  pub lines-refines :
      (s : Logs) (steps : Steps is_valid silent s)
      → (s.lines ≡ latest max_lines (all_logged steps)) × (length s.lines ≤ max_lines)
  lines-refines s steps =
      let same = Steps-lines steps in
      let (last, bound) = push_all-refines max_lines (all_logged steps) in
      (same ∙ last, subst (λ l. length l ≤ max_lines) (sym same) bound)
