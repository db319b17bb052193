-- ===== src/Examples/Listening.antt =====
-- The theorems on the log socket, with one listener.
use maubot.Base.{some, String, ◌==◌, ◌≡◌, ◌≤◌, Bool}
use maubot.Base.Lists.{length, All}
use maubot.Logs
use maubot.Logs.{max_lines, Logs, silent, emit, send, on_text, hears, emits, sends, Steps}
use maubot.Logs.Buffer.{latest}
use maubot.Logs.History.{all_logged, lines-refines}
use maubot.Logs.Privacy.{IsAllowed, sent-IsAllowed}

abbrev is_key : String → Bool
is_key s = s == "key"

abbrev told : Logs
told = send (emit (some "started") (on_text is_key 4 "key" silent))

told-Steps : Steps is_key silent told
told-Steps = Logs.then (hears 4 "key" silent) (
    Logs.then (emits (some "started") (on_text is_key 4 "key" silent))
      (Logs.then (sends (emit (some "started") (on_text is_key 4 "key" silent))) Logs.stay))

sent-IsAllowed_example : All (IsAllowed is_key told.received) told.sent
sent-IsAllowed_example = sent-IsAllowed is_key told told-Steps

lines-refines_example :
    (told.lines ≡ latest max_lines (all_logged is_key told-Steps)) × (length told.lines ≤ max_lines)
lines-refines_example = lines-refines is_key told told-Steps
