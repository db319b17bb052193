-- ===== src/Commands/Usage.antt =====
-- The usage texts of a command handler, the properties __mb_prefix__ to __mb_full_help__.
use maubot.Base.{if◌then◌else◌, String, none, some, List, [], ◌∷◌, not, ◌&&◌}
use maubot.Base.Text.{append}
use maubot.Commands.{Argument, Config, Handler, node, Handlers, hnil, hcons, config, has_any}

-- An f-string: the texts one behind the other.
concat : List String → String
concat [] = ""
concat (s ∷ ss) = append s (concat ss)

-- sep.join(texts)
join : String → List String → String
join sep [] = ""
join sep (s ∷ []) = s
join sep (s ∷ t ∷ ss) = append s (append sep (join sep (t ∷ ss)))

-- __mb_name__
unfoldable pub name : Config → String
name c = c.get_name c.bound

-- __mb_prefix__
unfoldable pub prefix : Config → String
unfolding concat name
prefix c = elim c.parent [
  | none ↦ concat ("!" ∷ name c ∷ [])
  | some parent ↦ concat ("!" ∷ parent c.bound ∷ " " ∷ name c ∷ [])
]

labels : List Argument → List String
unfolding concat
labels [] = []
labels (a ∷ rest) =
    (if a.required then concat ("<" ∷ a.label ∷ ">" ∷ []) else concat ("[" ∷ a.label ∷ "]" ∷ []))
    ∷ labels rest

-- __mb_usage_subcommand__
abbrev pub usage_subcommand : String
usage_subcommand = "<subcommand> [...]"

-- __mb_usage_args__
unfoldable pub usage_args : Handler → String
unfolding join labels concat
usage_args (node c subs) =
    let args = join " " (labels c.arguments) in
    if has_any subs && c.arg_fallthrough then concat (args ∷ " " ∷ usage_subcommand ∷ []) else args

-- __mb_usage_inline__
unfoldable pub usage_inline : Handler → String
unfolding concat name usage_args
usage_inline h =
    let c = config h in
    let line = concat ("* " ∷ name c ∷ " " ∷ usage_args h ∷ " - " ∷ c.help ∷ []) in
    if not c.arg_fallthrough
    then concat (line ∷ "\n* " ∷ name c ∷ " " ∷ usage_subcommand ∷ [])
    else line

names : Handlers → List String
unfolding name
names hnil = []
names (hcons h hs) = name (config h) ∷ names hs

usages : Handlers → List String
unfolding usage_inline
usages hnil = []
usages (hcons h hs) = usage_inline h ∷ usages hs

-- __mb_subcommands_list__
unfoldable pub subcommands_list : Handlers → String
unfolding names join
subcommands_list subs = append "**Subcommands:** " (join ", " (names subs))

-- __mb_usage_without_subcommands__
unfoldable pub usage_without_subcommands : Handler → String
unfolding concat prefix usage_args
usage_without_subcommands (node c subs) =
    let p = prefix c in
    let args = usage_args (node c subs) in
    if not c.arg_fallthrough
    then (elim c.arguments [
      | [] ↦ concat ("**Usage:** " ∷ p ∷ " [subcommand] [...]" ∷ [])
      | _ ∷ _ ↦ concat ("**Usage:** " ∷ p ∷ " " ∷ args ∷ " _OR_ " ∷ p ∷ " " ∷ usage_subcommand ∷ [])
    ])
    else concat ("**Usage:** " ∷ p ∷ " " ∷ args ∷ [])

-- __mb_usage__
unfoldable pub usage : Handler → String
unfolding concat usage_without_subcommands subcommands_list
usage (node c subs) =
    let short = usage_without_subcommands (node c subs) in
    if has_any subs then concat (short ∷ "  \n" ∷ subcommands_list subs ∷ []) else short

-- __mb_full_help__
unfoldable pub full_help : Handler → String
unfolding concat usage_without_subcommands prefix usage_args join usages
full_help (node c subs) =
    let own =
      if not c.require_subcommand
      then concat ("* " ∷ prefix c ∷ " " ∷ usage_args (node c subs) ∷ " - " ∷ c.help ∷ "\n" ∷ [])
      else "" in
    concat (usage_without_subcommands (node c subs) ∷ "\n\n" ∷ own ∷ join "\n" (usages subs) ∷ [])
