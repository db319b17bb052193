-- ===== src/Plugin.antt =====
-- What a plugin inherits: the registration of its handlers (maubot/plugin_base.py), the marks of
-- maubot/handlers/event.py and web.py, and its web app (maubot/plugin_server.py).
pub mod Scheduler
pub mod Stopping
pub mod WebApp
use maubot.Base.{
  if◌then◌else◌, String, ℕ, Option, none, some, List, [], ◌∷◌, ◌++◌, Bool, true, false, ◌||◌, ◌==◌,
  not,
}
use maubot.Base.Text.{mem}
use maubot.Plugin.Scheduler.{Sched, stop}

-- A web handler's mark: method and path.
abbrev pub Route : Type 0
Route = String × String

-- An attribute of a plugin object, by its value's address and marks; `none` where the value does not
-- have the mark, and `gettable` is false where reading the attribute raises AttributeError.
pub record Attribute : Type 0 where
  pub value : ℕ
  pub gettable : Bool
  pub event_handler : Option Bool
  pub event_types : Option (List String)
  pub web_handler : Option (List Route)

insert_type : String → List String → List String
insert_type t ts = if mem t ts then ts else ts ++ (t ∷ [])

-- event.on(var)(func), with `none` where `var` is the function itself. EventType.ALL is written "*".
unfoldable pub on : Option String → Attribute → Attribute
unfolding insert_type
on none a = record a { event_handler = some true; event_types = some ("*" ∷ []) }
on (some t) a = record a {
  event_handler = some true;
  event_types = some (elim a.event_types [ none ↦ t ∷ [] | some ts ↦ insert_type t ts ]);
}

-- event.off
unfoldable pub off : Attribute → Attribute
off a = record a { event_handler = some false }

-- web.handle(method, path)
unfoldable pub handle : String → String → Attribute → Attribute
handle method path a = record a {
  web_handler =
      some (elim a.web_handler [ none ↦ [] | some routes ↦ routes ] ++ ((method, path) ∷ []));
}

-- A plugin object: _handlers_at_startup, the routes of its web app, which it may not have, its
-- scheduler, and the calls of the Matrix client, in order.
pub data ClientCall : Type 0 where
  add_event_handler remove_event_handler : String → ℕ → ClientCall

pub record Plugin : Type 0 where
  pub attributes : List Attribute
  pub handlers_at_startup : List (ℕ × String)
  pub webapp : Option (List (Route × ℕ))
  pub sched : Sched
  pub calls : List ClientCall

-- The loop over __mb_event_types__
unfoldable pub add_types : ℕ → List String → Plugin → Plugin
add_types f [] p = p
add_types f (t ∷ ts) p = add_types f ts (record p {
  handlers_at_startup = p.handlers_at_startup ++ ((f, t) ∷ []);
  calls = p.calls ++ (add_event_handler t f ∷ []);
})

-- The marks of an event handler; without both, nothing is added.
unfoldable pub add_marked : ℕ → Option Bool → Option (List String) → Plugin → Plugin
unfolding add_types
add_marked f (some true) (some types) p = add_types f types p
add_marked f _ _ p = p

with_handler : ℕ → List Route → List (Route × ℕ)
with_handler f [] = []
with_handler f (r ∷ rs) = (r, f) ∷ with_handler f rs

-- Routes are only added to a web app that there is.
unfoldable pub add_routes : ℕ → Option (List Route) → Option (List (Route × ℕ)) → Plugin → Plugin
unfolding with_handler
add_routes f (some routes) (some app) p = record p { webapp = some (app ++ with_handler f routes) }
add_routes f _ _ p = p

unfoldable pub add_attribute : Attribute → Plugin → Plugin
unfolding add_marked add_routes
add_attribute a p =
    let p' = add_marked a.value a.event_handler a.event_types p in
    add_routes a.value a.web_handler p'.webapp p'

-- register_handler_class
unfoldable pub register : List Attribute → Plugin → Plugin
unfolding add_attribute
register [] p = p
register (a ∷ rest) p = register rest (if a.gettable then add_attribute a p else p)

-- internal_start: `none` where pre_start raises. What `start` itself does is the plugin's own.
unfoldable pub internal_start : Bool → Plugin → Option Plugin
unfolding register
internal_start pre_starts p = if pre_starts then some (register p.attributes p) else none

unfoldable pub removals : List (ℕ × String) → List ClientCall
removals [] = []
removals ((f, t) ∷ rest) = remove_event_handler t f ∷ removals rest

-- internal_stop: `none` where pre_stop raises.
unfoldable pub internal_stop : Bool → Plugin → Option Plugin
unfolding removals
internal_stop pre_stops p =
    if pre_stops
    then some (record p {
      calls = p.calls ++ removals p.handlers_at_startup;
      webapp = elim p.webapp [ none ↦ none | some app ↦ some [] ];
      sched = stop p.sched;
    })
    else none
