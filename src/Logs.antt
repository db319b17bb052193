-- ===== src/Logs.antt =====
-- The log socket (maubot/management/api/log.py): LogCollector and log_websocket. A step is
-- one operation; while it sends its frames, no other step comes between.
pub mod Buffer
pub mod History
pub mod Privacy
use maubot.Base.{
  if◌then◌else◌, String, ℕ, suc, Option, none, some, List, [], ◌∷◌, ◌++◌, ◌≡◌, Bool, true, false,
  nat_eq, leb, not,
}
use maubot.Base.Lists.{length}
use maubot.Base.Dict.{update}

-- MAX_LINES
abbrev pub max_lines : ℕ
max_lines = 2048

unfoldable pub tail : {A : Type 0} → List A → List A
tail [] = []
tail (x ∷ xs) = xs

-- deque(maxlen=n).append(x)
unfoldable pub push : {A : Type 0} → ℕ → List A → A → List A
unfolding tail
push n xs x = if leb n (length xs) then tail (xs ++ (x ∷ [])) else xs ++ (x ∷ [])

-- What a socket is sent: the answer to a token, all lines, or one line. A line is the JSON text.
pub data Frame : Type 0 where
  auth_success : Bool → Frame
  history : List String → Frame
  line : String → Frame

-- The handler's lines and listeners, the coroutines `send` that `emit` has scheduled, the sockets,
-- the variable `authenticated` of each, the frames that were sent and the texts that came in. A
-- socket is an address.
pub record Logs : Type 0 where
  pub lines : List String
  pub scheduled : List String
  pub listeners : List ℕ
  pub sockets : List ℕ
  pub authenticated : ℕ → Bool
  pub sent : List (ℕ × Frame)
  pub received : List (ℕ × String)

-- LogCollector.emit, with the JSON text of the record, or none where _emit raises, which is only
-- printed.
unfoldable pub emit : Option String → Logs → Logs
unfolding push
emit none s = s
emit (some content) s = record s {
  lines = push max_lines s.lines content;
  scheduled = s.scheduled ++ (content ∷ []);
}

-- [(ws, record) for ws in listeners]
unfoldable pub to_all : String → List ℕ → List (ℕ × Frame)
to_all content [] = []
to_all content (ws ∷ rest) = (ws, line content) ∷ to_all content rest

-- LogCollector.send, the first of the coroutines that were scheduled. An error of a socket is only
-- printed.
unfoldable pub send_next : List String → Logs → Logs
unfolding to_all
send_next [] s = s
send_next (content ∷ rest) s = record s {
  scheduled = rest;
  sent = to_all content s.listeners ++ s.sent;
}

unfoldable pub send : Logs → Logs
unfolding send_next
send s = send_next s.scheduled s

-- log_websocket up to its loop
unfoldable pub open_socket : ℕ → Logs → Logs
open_socket ws s = record s {
  sockets = s.sockets ++ (ws ∷ []);
  authenticated = update s.authenticated ws false;
}

-- The branch of a valid token.
unfoldable pub accept : ℕ → Logs → Logs
accept ws s = record s {
  sent = (ws, history s.lines) ∷ (ws, auth_success true) ∷ s.sent;
  listeners = if s.authenticated ws then s.listeners else s.listeners ++ (ws ∷ []);
  authenticated = update s.authenticated ws true;
}

-- A text message in the loop, with the result of is_valid_token
unfoldable pub heard : Bool → ℕ → Logs → Logs
unfolding accept
heard true ws s = accept ws s
heard false ws s =
    if s.authenticated ws then s else record s { sent = (ws, auth_success false) ∷ s.sent }

unfoldable pub on_text : (String → Bool) → ℕ → String → Logs → Logs
unfolding heard
on_text is_valid ws text s =
    heard (is_valid text) ws (record s { received = (ws, text) ∷ s.received })

-- xs.remove(x)
unfoldable pub remove : ℕ → List ℕ → List ℕ
remove x [] = []
remove x (y ∷ ys) = let rest = remove x ys in if nat_eq y x then ys else y ∷ rest

-- log_websocket behind its loop
unfoldable pub close_socket : ℕ → Logs → Logs
unfolding remove
close_socket ws s = record s {
  listeners = if s.authenticated ws then remove ws s.listeners else s.listeners;
  sockets = remove ws s.sockets;
}

module _ (is_valid : String → Bool) where
  pub data Step : Logs → Logs → Type 0 where
    emits : (content : Option String) (s : Logs) → Step s (emit content s)
    sends : (s : Logs) → Step s (send s)
    opens : (ws : ℕ) (s : Logs) → Step s (open_socket ws s)
    hears : (ws : ℕ) (text : String) (s : Logs) → Step s (on_text is_valid ws text s)
    closes : (ws : ℕ) (s : Logs) → Step s (close_socket ws s)

  pub data Steps : Logs → Logs → Type 0 where
    stay : {s : Logs} → Steps s s
    then : {s t u : Logs} → Step s t → Steps t u → Steps s u

abbrev pub silent : Logs
silent = record {
  lines = [];
  scheduled = [];
  listeners = [];
  sockets = [];
  authenticated = λ ws. false;
  sent = [];
  received = [];
}
