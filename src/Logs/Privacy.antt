-- ===== src/Logs/Privacy.antt =====
-- Theorems on who is sent log lines (maubot/management/api/log.py).
use maubot.Base.Rules.{if_both}
use maubot.Base.{none, some, String, ℕ, List, [], ◌∷◌, ◌≡◌, refl, Bool, true, false, nat_eq}
use maubot.Base.Lists.{All, All-map, All-append}
use maubot.Logs.{
  heard, send_next, Logs, Frame, auth_success, history, line, emit, send, to_all, open_socket,
  accept, on_text, close_socket, remove, Step, emits, sends, opens, hears, closes, Steps, stay,
  then, silent,
}

module _ (is_valid : String → Bool) where
  -- Among the texts that came in, there is one of the socket that is a valid token.
  pub data HasToken (ws : ℕ) : List (ℕ × String) → Type 0 where
    now :
        (text : String) (rest : List (ℕ × String))
        → is_valid text ≡ true
        → HasToken ws ((ws, text) ∷ rest)
    earlier :
        (x : ℕ × String) (rest : List (ℕ × String)) → HasToken ws rest → HasToken ws (x ∷ rest)

  -- A frame that has log lines in it went to a socket that had sent a valid token.
  unfoldable pub IsAllowed : List (ℕ × String) → ℕ × Frame → Type 0
  IsAllowed texts (ws, auth_success b) = Unit
  IsAllowed texts (ws, history lines) = HasToken ws texts
  IsAllowed texts (ws, line content) = HasToken ws texts

  record IsPrivate (s : Logs) : Type 0 where
    frames : All (IsAllowed s.received) s.sent
    listening : All (λ ws. HasToken ws s.received) s.listeners

  IsAllowed-later :
      (x : ℕ × String) (texts : List (ℕ × String)) (p : ℕ × Frame)
      → IsAllowed texts p
      → IsAllowed (x ∷ texts) p
  unfolding IsAllowed
  IsAllowed-later x texts (ws, auth_success b) h = tt
  IsAllowed-later x texts (ws, history lines) h = earlier x texts h
  IsAllowed-later x texts (ws, line content) h = earlier x texts h

  to_all-IsAllowed :
      (texts : List (ℕ × String)) (content : String) (listeners : List ℕ)
      → All (λ ws. HasToken ws texts) listeners
      → All (IsAllowed texts) (to_all content listeners)
  unfolding to_all IsAllowed
  to_all-IsAllowed texts content [] h = tt
  to_all-IsAllowed texts content (ws ∷ rest) (h, hs) = (h, to_all-IsAllowed texts content rest hs)

  remove-All : (P : ℕ → Type 0) (x : ℕ) (xs : List ℕ) → All P xs → All P (remove x xs)
  unfolding remove
  remove-All P x [] h = tt
  remove-All P x (y ∷ ys) (p, h) = if_both (All P) (nat_eq y x) h (p, remove-All P x ys h)

  send_next-IsPrivate :
      (scheduled : List String) (s : Logs) → IsPrivate s → IsPrivate (send_next scheduled s)
  unfolding send_next
  send_next-IsPrivate [] s h = h
  send_next-IsPrivate (content ∷ rest) s h = record {
    frames =
        All-append (IsAllowed s.received) (to_all content s.listeners) s.sent
          (to_all-IsAllowed s.received content s.listeners h.listening) h.frames;
    listening = h.listening;
  }

  -- One more text leaves everything allowed.
  later-IsPrivate :
      (x : ℕ × String) (s : Logs) → IsPrivate s → IsPrivate (record s { received = x ∷ s.received })
  later-IsPrivate x s h = record {
    frames = All-map s.sent (IsAllowed-later x s.received) h.frames;
    listening = All-map s.listeners (λ ws k. earlier x s.received k) h.listening;
  }

  accept-IsPrivate :
      (ws : ℕ) (s : Logs) → HasToken ws s.received → IsPrivate s → IsPrivate (accept ws s)
  unfolding accept IsAllowed
  accept-IsPrivate ws s token h = record {
    frames = (token, (tt, h.frames));
    listening =
        if_both (All (λ v. HasToken v s.received)) (s.authenticated ws) h.listening
          (All-append (λ v. HasToken v s.received) s.listeners (ws ∷ []) h.listening (token, tt));
  }

  heard-IsPrivate :
      (b : Bool) (ws : ℕ) (text : String) (s : Logs)
      → is_valid text ≡ b
      → IsPrivate s
      → IsPrivate (heard b ws (record s { received = (ws, text) ∷ s.received }))
  unfolding heard IsAllowed
  heard-IsPrivate true ws text s e h =
      accept-IsPrivate ws _ (now text s.received e) (later-IsPrivate (ws, text) s h)
  heard-IsPrivate false ws text s e h =
      let later = later-IsPrivate (ws, text) s h in
      if_both IsPrivate (s.authenticated ws) later
        (record { frames = (tt, later.frames); listening = later.listening })

  Step-IsPrivate : (s t : Logs) → Step is_valid s t → IsPrivate s → IsPrivate t
  unfolding emit send open_socket on_text close_socket
  Step-IsPrivate _ _ (emits none s) h = h
  Step-IsPrivate _ _ (emits (some content) s) h = record {
    frames = h.frames;
    listening = h.listening;
  }
  Step-IsPrivate _ _ (sends s) h = send_next-IsPrivate s.scheduled s h
  Step-IsPrivate _ _ (opens ws s) h = record { frames = h.frames; listening = h.listening }
  Step-IsPrivate _ _ (hears ws text s) h = heard-IsPrivate (is_valid text) ws text s refl h
  Step-IsPrivate _ _ (closes ws s) h = record {
    frames = h.frames;
    listening =
        if_both (All (λ v. HasToken v s.received)) (s.authenticated ws)
          (remove-All (λ v. HasToken v s.received) ws s.listeners h.listening) h.listening;
  }

  Steps-IsPrivate : (s t : Logs) → Steps is_valid s t → IsPrivate s → IsPrivate t
  Steps-IsPrivate s _ stay h = h
  Steps-IsPrivate s t (then {t = m} one rest) h =
      Steps-IsPrivate m t rest (Step-IsPrivate s m one h)

  -- Whatever is logged and whatever the sockets send, every frame with log lines that was sent, the
  -- history as well as single lines, went to a socket that had sent a valid token before.
  pub sent-IsAllowed : (s : Logs) → Steps is_valid silent s → All (IsAllowed s.received) s.sent
  sent-IsAllowed s steps =
      (Steps-IsPrivate silent s steps (record { frames = tt; listening = tt })).frames
