-- ===== src/Messages/Replies.antt =====
-- Theorems on replies, threads and edits (maubot/matrix.py).
use maubot.Base.Rules.{if_both}
use maubot.Base.{◌∙◌, ◌||◌, ◌∙◌, String, Option, none, some, ◌≡◌, refl, Bool, true, false, [], ◌∷◌}
use maubot.Base.Text.{append}
use maubot.Base.Dict.{Dict}
use maubot.Messages.{
  formatted, Markup, Event, text, Content, Reply, respond, reply_to_event, set_all, mention,
  break_lines,
}

-- The relations of a content to other events.
unfoldable pub relations : Content → Option String × Option String × Option String
relations c = (c.edit, c.thread_parent, c.reply_to)

relations-set_all : (extra : Dict String) (c : Content) → relations (set_all extra c) ≡ relations c
unfolding relations set_all
relations-set_all [] c = refl
relations-set_all ((k, v) ∷ rest) c = relations-set_all rest _

-- An edit of a text has no other relation, whatever is said of replies and threads.
pub respond-edits :
    (m : Markup) (evt : Event) (body : String) (markdown allow_html : Bool) (r : Reply)
    (in_thread : Option Bool) (edited : String) (extra : Dict String)
    → relations (respond m evt (text body) markdown allow_html r in_thread (some edited) extra)
      ≡ (some edited, none, none)
unfolding respond relations formatted
respond-edits m evt body markdown allow_html r in_thread edited extra =
    relations-set_all extra _
    ∙ if_both (λ c. relations (record c { edit = some edited }) ≡ (some edited, none, none))
        (allow_html || markdown) refl refl

-- A plain text in reply, with replies disabled, is sent with the sender's name twice in its formatted
-- body: behind the mention, the body that is escaped has the name in front already.
reply_to_event-repeats :
    (m : Markup) (evt : Event) (body : String)
    → evt.disable_reply ≡ true
    → (reply_to_event m evt (text body) false false (some false) []).formatted_body
      ≡ some (mention evt.sender (break_lines (m.escape (append evt.sender (append ": " body)))))
unfolding reply_to_event
reply_to_event-repeats m evt body disabled = rw (disabled) refl
