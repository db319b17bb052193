-- ===== src/Commands/Dispatch.antt =====
-- CommandHandler.__call__, __call_subcommand__ and __get__.
use Prim.Native.Char.{code}
use maubot.Base.{
  if◌then◌else◌, ℕ, String, ◌==◌, Option, none, some, Bool, true, false, not, ◌&&◌, ◌||◌, nat_eq,
}
use maubot.Base.Text.{mem}
use maubot.Commands.{
  subcommands, Args, Config, Handler, node, Handlers, hnil, hcons, config, has_any, Event, Outcome,
  ignored, replied, called, failed, Python,
}
use maubot.Commands.Words.{strip, is_empty, split_in_two}
use maubot.Commands.Arguments.{Parse, bound, refused, broken, parse_args}
use maubot.Commands.Usage.{usage, full_help}

-- evt.content.body[1:], if the body starts with "!"
unfoldable pub command_text : String → Option String
command_text String.[] = none
command_text (String.◌∷◌ c s) = if nat_eq (code c) b'!' then some s else none

-- self.__mb_is_command_match__(self.__bound_instance__, val); `none` is the exception.
unfoldable pub is_match : Config → String → Option Bool
is_match c val = elim c.is_command_match [ none ↦ none | some test ↦ some (test c.bound val) ]

-- The name test at the top: `none` raises, `some none` returns, and else the rest comes out.
unfoldable pub tested : Option Bool → String → Option (Option String)
tested none rest = none
tested (some true) rest = some (some rest)
tested (some false) rest = some none

unfoldable pub name_test : Python → Config → String → Option (Option String)
unfolding is_match split_in_two tested
name_test py c val =
    let (command, rest) = split_in_two val in tested (is_match c (py.lower command)) rest

-- What is left of the message for a handler: all of `remaining_val`, or the text behind its name.
unfoldable pub entry : Python → Config → Event → Option String → Option (Option String)
unfolding command_text name_test
entry py c evt (some remaining) = some (some remaining)
entry py c evt none = elim (command_text evt.body) [ none ↦ some none | some s ↦ name_test py c s ]

-- The last lines of __call__.
unfoldable pub finish : Handler → Args → String → Outcome
finish h args rest =
    let c = config h in
    if c.must_consume_args && not (is_empty (strip rest))
    then replied (full_help h)
    else called c.func c.bound args

-- The subcommands before the function itself: `sub` is __call_subcommand__ and its `none` no match.
unfoldable pub or_finish : Handler → Bool → Args → String → Option Outcome → Outcome
unfolding finish
or_finish h required args rest (some outcome) = outcome
or_finish h required args rest none = if required then replied (full_help h) else finish h args rest

-- Behind __parse_args__.
unfoldable pub fall_through : Handler → (Args → String → Option Outcome) → Parse → Outcome
unfolding finish or_finish
fall_through h sub (bound args rest) =
    let c = config h in
    if c.arg_fallthrough && has_any (subcommands h)
    then or_finish h c.require_subcommand args rest (sub args rest)
    else finish h args rest
fall_through h sub (refused message) = replied message
fall_through h sub broken = failed

-- `if ok: return res`, and else the rest of __call__.
unfoldable pub or_parse : Option Outcome → Outcome → Outcome
or_parse (some outcome) rest = outcome
or_parse none rest = rest

-- __call__ behind the tests of the event.
unfoldable pub serve : Python → Handler → (Args → String → Option Outcome) → Args → String → Outcome
unfolding or_parse
serve py h sub args val =
    let c = config h in
    let parse = fall_through h sub (parse_args py (usage h) c.arguments args val) in
    if not c.arg_fallthrough && has_any (subcommands h)
    then or_parse (sub args val) parse
    else parse

unfoldable pub enter : (String → Outcome) → Option (Option String) → Outcome
enter go none = failed
enter go (some none) = ignored
enter go (some (some val)) = go val

-- __call__: `sub` is __call_subcommand__ of the handler.
unfoldable pub handle :
    Python → Event → Handler → (Args → String → Option Outcome) → Args → Option String → Outcome
unfolding entry serve enter
handle py evt h sub args remaining =
    let c = config h in
    if evt.sender == evt.own || not (mem evt.msgtype c.msgtypes)
    then ignored
    else enter (λ val. serve py h sub args val) (entry py c evt remaining)

-- One turn of the loop of __call_subcommand__: the test of the subcommand's name, its call, and the
-- rest of the loop.
unfoldable pub choose : Option Bool → Outcome → Option Outcome → Option Outcome
choose none outcome rest = some failed
choose (some true) outcome rest = some outcome
choose (some false) outcome rest = rest

unfoldable mutual
  unfolding handle choose is_match split_in_two strip

  pub call : Python → Event → Handler → Args → Option String → Outcome
  call py evt (node c subs) args remaining =
      handle py evt (node c subs)
        (λ args' val.
          let (command, rest) = split_in_two (strip val) in call_one py evt subs command args' rest)
        args remaining

  -- The loop of __call_subcommand__; `none` is `False, None`.
  pub call_one : Python → Event → Handlers → String → Args → String → Option Outcome
  call_one py evt hnil command args rest = none
  call_one py evt (hcons h hs) command args rest =
      choose (is_match (config h) command) (call py evt h args (some rest))
        (call_one py evt hs command args rest)

-- __get__: a copy of the handler for the object `who`, with copies of its subcommands. The copies that
-- are kept for the next access are the same again.
unfoldable mutual
  pub get : ℕ → Handler → Handler
  get who (node c subs) = elim c.bound [
    | some other ↦ node c subs
    | none ↦ node (record c { bound = some who }) (get_all who subs)
  ]

  pub get_all : ℕ → Handlers → Handlers
  get_all who hnil = hnil
  get_all who (hcons h hs) = hcons (get who h) (get_all who hs)
