-- ===== src/Messages.antt =====
-- Messages that plugins send (maubot/matrix.py): parse_formatted, MaubotMessageEvent and
-- MaubotMatrixClient.send_markdown.
pub mod Limits
pub mod Replies
pub mod Events
use Prim.Native.Char.{code}
use maubot.Base.{
  if◌then◌else◌, String, ◌==◌, ℕ, ◌+◌, Option, none, some, List, [], ◌∷◌, Bool, true, false, not,
  ◌&&◌, ◌||◌, nat_eq, ltb, is_some,
}
use maubot.Base.Text.{append, size, take}
use maubot.Base.Dict.{Dict, insert}

-- What is not in this repository: mautrix's Markdown renderer, the text of the HTML parser, and
-- html.escape.
pub record Markup : Type 0 where
  pub render : String → Bool → String
  pub plain : String → String
  pub escape : String → String

-- The cut of a long text.
unfoldable pub cut_off : String → String → String
cut_off text html =
    if ltb 100 (size text) && ltb 40000 (size text + size html)
    then append (take 100 text) "[long message cut off]"
    else text

-- parse_formatted: the body and the formatted body
unfoldable pub parse_formatted : Markup → String → Bool → Bool → String × String
unfolding cut_off
parse_formatted m message allow_html render_markdown =
    if render_markdown
    then (let html = m.render message allow_html in (cut_off (m.plain html) html, html))
    else if allow_html
    then (cut_off (m.plain message) message, message)
    else (message, m.escape message)

-- A message content. Of the library's set_edit, set_thread_parent and set_reply, only the id of the
-- event is kept that they were called with, and `other` are fields that are set by their names.
pub record Content : Type 0 where
  pub msgtype : String
  pub body : String
  pub is_html : Bool
  pub formatted_body : Option String
  pub edit : Option String
  pub thread_parent : Option String
  pub reply_to : Option String
  pub other : Dict String

-- The argument `content` of respond: a text, or a content that is used as it is.
pub data Given : Type 0 where
  text : String → Given
  ready : Content → Given

-- The message that is answered. `in_thread` is whether its content has a thread parent.
pub record Event : Type 0 where
  pub event_id : String
  pub sender : String
  pub in_thread : Bool
  pub disable_reply : Bool

-- The argument `reply`
pub data Reply : Type 0 where
  no_reply reply force : Reply

abbrev plain_content : String → String → Content
plain_content msgtype body = record {
  msgtype = msgtype;
  body = body;
  is_html = false;
  formatted_body = none;
  edit = none;
  thread_parent = none;
  reply_to = none;
  other = [];
}

unfoldable pub formatted : String × String → Content → Content
formatted (body, html) c = record c { body = body; is_html = true; formatted_body = some html }

unfoldable pub make_content : Markup → Given → Bool → Bool → Content
unfolding parse_formatted formatted
make_content m (ready c) markdown allow_html = c
make_content m (text body) markdown allow_html =
    if allow_html || markdown
    then formatted (parse_formatted m body allow_html markdown) (plain_content "m.notice" body)
    else plain_content "m.notice" body

unfoldable pub set_thread : Event → Option String → Option Bool → Content → Content
set_thread evt (some edited) in_thread c = c
set_thread evt none none c =
    if evt.in_thread then record c { thread_parent = some evt.event_id } else c
set_thread evt none (some true) c = record c { thread_parent = some evt.event_id }
set_thread evt none (some false) c = c

-- s.replace("\n", "<br>")
unfoldable pub break_lines : String → String
break_lines String.[] = String.[]
break_lines (String.◌∷◌ c s) =
    let rest = break_lines s in
    if nat_eq (code c) b'\n' then append "<br>" rest else String.◌∷◌ c rest

-- content.formatted_body or escape(content.body).replace("\n", "<br>")
unfoldable pub html_of : Markup → Content → String
unfolding break_lines
html_of m c = elim c.formatted_body [
  | none ↦ break_lines (m.escape c.body)
  | some html ↦ if html == "" then break_lines (m.escape c.body) else html
]

-- f'<a href="https://matrix.to/#/{sender}">{sender}</a>: {html}'
unfoldable pub mention : String → String → String
mention sender html =
    append "<a href=\"https://matrix.to/#/"
      (append sender (append "\">" (append sender (append "</a>: " html))))

-- The reply that is written out, since the client has replies disabled.
unfoldable pub write_reply : Markup → String → Content → Content
unfolding html_of mention
write_reply m sender c =
    let c' : Content = record c { body = append sender (append ": " c.body) } in
    record c' { formatted_body = some (mention sender (html_of m c')) }

unfoldable pub set_reply : Markup → Event → Option String → Reply → Content → Content
unfolding write_reply
set_reply m evt (some edited) r c = c
set_reply m evt none no_reply c = c
set_reply m evt none force c = record c { reply_to = some evt.event_id }
set_reply m evt none reply c =
    if evt.disable_reply
    then write_reply m evt.sender c
    else record c { reply_to = some evt.event_id }

set_edit : Option String → Content → Content
set_edit none c = c
set_edit (some edited) c = record c { edit = some edited }

set_all : Dict String → Content → Content
set_all [] c = c
set_all ((k, v) ∷ rest) c = set_all rest (record c { other = insert k v c.other })

-- MaubotMessageEvent.respond: the content that is sent
unfoldable pub respond :
    Markup
    → Event
    → Given
    → Bool
    → Bool
    → Reply
    → Option Bool
    → Option String
    → Dict String
    → Content
unfolding make_content set_edit set_thread set_reply set_all
respond m evt given markdown allow_html r in_thread edits extra = set_all extra (
    set_reply m evt edits r
      (set_thread evt edits in_thread (set_edit edits (make_content m given markdown allow_html))))

-- MaubotMessageEvent.reply
unfoldable pub reply_to_event :
    Markup → Event → Given → Bool → Bool → Option Bool → Dict String → Content
unfolding respond
reply_to_event m evt given markdown allow_html in_thread extra =
    respond m evt given markdown allow_html reply in_thread none extra

-- MaubotMessageEvent.edit
unfoldable pub edit_event : Markup → Event → Given → Bool → Bool → Content
unfolding respond
edit_event m evt given markdown allow_html =
    respond m evt given markdown allow_html no_reply none (some evt.event_id) []

-- MaubotMatrixClient.send_markdown; `none` is the ValueError. `relates_to` is a reply.
unfoldable pub send_markdown :
    Markup
    → String
    → Bool
    → Bool
    → String
    → Option String
    → Option String
    → Dict String
    → Option Content
unfolding parse_formatted formatted set_edit set_all
send_markdown m markdown allow_html render_markdown msgtype edits relates_to extra =
    let c =
      formatted (parse_formatted m markdown allow_html render_markdown)
        (plain_content msgtype "") in
    if is_some relates_to && is_some edits
    then none
    else if is_some relates_to
    then some (set_all extra (record c { reply_to = relates_to }))
    else some (set_all extra (set_edit edits c))
