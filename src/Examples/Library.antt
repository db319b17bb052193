-- ===== src/Examples/Library.antt =====
-- The theorems on what plugins use: databases, messages, the scheduler and their handlers.
use maubot.Base.{◌≡◌, refl, true, false, none, some, [], ◌∷◌, ◌++◌, ◌⊎◌, arith}
use maubot.Base.Text.{append}
use maubot.Databases
use maubot.Databases.{Proxy, init, schema_name}
use maubot.Messages.{Markup, Event}
use maubot.Plugin.Scheduler
use maubot.Plugin.Scheduler.{Sched, register_task, registers, stop}
use maubot.Plugin.Scheduler.Cancelling.{stop-cancels}
use maubot.Plugin.{Plugin, Attribute, internal_start, internal_stop, register, removals}
use maubot.Plugin.Stopping.{additions, internal_stop-removes}

-- One connection, whose reset was cancelled, and another one that the plugin holds.
abbrev start : Proxy
start = init 1 (λ c. "public") (λ c. false)

abbrev returned : Proxy
returned = Databases.release "public" Databases.cancelled 3 [] (Databases.take "mbp_echo" 3 start)

abbrev busy : Proxy
busy = Databases.take "mbp_echo" 4 returned

abbrev markup : Markup
markup = record {
  render = λ s allow_html. append "<p>" (append s "</p>");
  plain = λ html. html;
  escape = λ s. s;
}

abbrev asked : Event
asked = record { event_id = "$1"; sender = "@me:hs"; in_thread = true; disable_reply = true }

abbrev one_task : Sched
one_task = register_task Scheduler.init

stop-cancels_example : (stop one_task).cancelled 0 ≡ true
unfolding register_task Scheduler.init
stop-cancels_example =
    stop-cancels one_task 0 (Scheduler.then (registers Scheduler.init) Scheduler.stay) (omega arith)
      refl

abbrev handler : Attribute
handler = record {
  value = 3;
  gettable = true;
  event_handler = some true;
  event_types = some ("m.room.message" ∷ []);
  web_handler = some (("GET", "/status") ∷ []);
}

abbrev plugin : Plugin
plugin = record {
  attributes = handler ∷ [];
  handlers_at_startup = [];
  webapp = some [];
  sched = one_task;
  calls = [];
}

abbrev started : Plugin
started = register (handler ∷ []) plugin

abbrev stopped : Plugin
stopped = record started {
  calls = started.calls ++ removals started.handlers_at_startup;
  webapp = some [];
  sched = stop one_task;
}

plugin_starts : internal_start true plugin ≡ some started
unfolding internal_start register
plugin_starts = refl

plugin_stops : internal_stop true started ≡ some stopped
unfolding internal_stop register
plugin_stops = refl

internal_stop-removes_example :
    (stopped.calls ≡ additions started.handlers_at_startup ++ removals started.handlers_at_startup)
    × ((stopped.webapp ≡ none) ⊎ (stopped.webapp ≡ some []))
internal_stop-removes_example =
    internal_stop-removes plugin started stopped refl refl plugin_starts plugin_stops
