-- ===== src/Commands/Arguments.antt =====
-- Argument.match for the three kinds of arguments, and CommandHandler.__parse_args__.
use maubot.Base.{if◌then◌else◌, String, Option, none, some, List, [], ◌∷◌, Bool, true, false, ◌&&◌}
use maubot.Base.Dict.{insert}
use maubot.Base.Text.{size, drop, take, append}
use maubot.Commands.{
  Value, text, groups, Args, Attempt, returned, syntax_error, value_error, raised, Matcher, simple,
  custom, regex, Argument, Match, Python,
}
use maubot.Commands.Words.{word, strip}

-- SimpleArgument.match
unfoldable pub match_simple : Bool → String → String × Option Value
match_simple pass_raw val =
    if pass_raw
    then ("", some (text val))
    else (let res = word val in (drop (size res) val, some (text res)))

-- The end of CustomArgument.match, behind the call of the matcher.
unfoldable pub take_word : String → Attempt (Option Value) → Attempt (String × Option Value)
take_word val (returned (some v)) = returned (drop (size (word val)) val, some v)
take_word val (returned none) = returned (val, none)
take_word val (syntax_error message show) = syntax_error message show
take_word val value_error = value_error
take_word val raised = raised

-- CustomArgument.match
unfoldable pub match_custom : Matcher → Bool → String → Attempt (String × Option Value)
unfolding take_word
match_custom m pass_raw val = if pass_raw then m.pair val else take_word val (m.value (word val))

-- match.groups() or val[match.start() : match.end()]
unfoldable pub groups_or_span : String → Match → Value
groups_or_span val m = elim m.groups [
  | [] ↦ text (drop m.start (take m.end val))
  | g ∷ gs ↦ groups (g ∷ gs)
]

-- RegexArgument.match
unfoldable pub match_regex : Python → String → Bool → String → String × Option Value
unfolding groups_or_span
match_regex py pattern pass_raw orig_val =
    let val = if pass_raw then orig_val else word orig_val in
    elim (py.match pattern val) [
      | none ↦ (orig_val, none)
      | some m ↦ (append (take m.start orig_val) (drop m.end orig_val), some (groups_or_span val m))
    ]

-- arg.match(val)
unfoldable pub match_value : Python → Argument → String → Attempt (String × Option Value)
unfolding match_simple match_custom match_regex
match_value py a val = elim a.kind [
  | simple ↦ returned (match_simple a.pass_raw val)
  | custom m ↦ match_custom m a.pass_raw val
  | regex pattern ↦ returned (match_regex py pattern a.pass_raw val)
]

-- How __parse_args__ ends: with the arguments and the rest, with a reply, or with an exception.
pub data Parse : Type 0 where
  bound : Args → String → Parse
  refused : String → Parse
  broken : Parse

-- f"\n{self.__mb_usage__}" if e.show_usage else ""
with_usage : String → String → Bool → String
with_usage usage message show = append message (if show then append "\n" usage else "")

unfoldable pub is_missing : Option Value → Bool
is_missing none = true
is_missing (some v) = false

-- One turn of the loop, behind the match: `next` is the rest of the loop.
unfoldable pub bind_one :
    String → Argument → Attempt (String × Option Value) → (Args → String → Parse) → Args → Parse
unfolding with_usage is_missing
bind_one usage a (returned (rest, v)) next args =
    if a.required && is_missing v then refused usage else next (insert a.name v args) rest
bind_one usage a (syntax_error message show) next args = refused (with_usage usage message show)
bind_one usage a value_error next args = refused usage
bind_one usage a raised next args = broken

-- CommandHandler.__parse_args__ with self.__mb_usage__
unfoldable pub parse_args : Python → String → List Argument → Args → String → Parse
unfolding bind_one match_value
parse_args py usage [] args val = bound args val
parse_args py usage (a ∷ rest) args val =
    bind_one usage a (match_value py a (strip val))
      (λ args' val'. parse_args py usage rest args' val') args
