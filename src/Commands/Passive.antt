-- ===== src/Commands/Passive.antt =====
-- The decorator `passive` of maubot/handlers/command.py, whose handlers wait for a text instead of a
-- command.
use maubot.Base.{
  if◌then◌else◌, ℕ, String, ◌==◌, Option, none, some, List, [], ◌∷◌, ◌++◌, Bool, not, ◌&&◌, ◌||◌,
}
use maubot.Base.Lists.{is_empty}
use maubot.Base.Text.{mem}
use maubot.Commands.{Match, Python, Event}

-- What `passive` is given. `multiple` finds all matches, and no msgtypes means that all are taken.
pub record Passive : Type 0 where
  pub func : ℕ
  pub pattern : String
  pub multiple : Bool
  pub msgtypes : List String
  pub field : Event → String

-- The tuple (data[match.pos : match.endpos], *match.groups()). `search` and `finditer` get no bounds,
-- so that `pos` is 0 and `endpos` the length: the slice is the whole of `data`.
abbrev pub Found : Type 0
Found = String × List (Option String)

found : String → List Match → List Found
found body [] = []
found body (m ∷ ms) = (body, m.groups) ∷ found body ms

-- A call of the plugin's function, with one tuple or with the list of them.
pub data Val : Type 0 where
  one : Found → Val
  many : List Found → Val

-- val, or nothing where it is false
unfoldable pub vals : Python → Passive → String → Option Val
unfolding found
vals py p body =
    if p.multiple
    then (elim (py.finditer p.pattern body) [
      | [] ↦ none
      | m ∷ ms ↦ some (many (found body (m ∷ ms)))
    ])
    else elim (py.search p.pattern body) [ none ↦ none | some m ↦ some (one (body, m.groups)) ]

-- replacement(self, evt): the calls of the plugin's functions, at most one.
unfoldable pub receive : Python → Event → Passive → List (ℕ × Val)
unfolding vals
receive py evt p =
    if evt.sender == evt.own || (not (is_empty p.msgtypes) && not (mem evt.msgtype p.msgtypes))
    then []
    else elim (vals py p (p.field evt)) [ none ↦ [] | some v ↦ (p.func, v) ∷ [] ]

-- Several decorators `passive` on one function: all of them get the event.
unfoldable pub receive_all : Python → Event → List Passive → List (ℕ × Val)
unfolding receive
receive_all py evt [] = []
receive_all py evt (p ∷ ps) = receive_all py evt ps ++ receive py evt p
