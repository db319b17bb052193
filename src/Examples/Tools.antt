-- ===== src/Examples/Tools.antt =====
-- The theorems on the command-line tools, at a fresh configuration, the command auth and a plugin of
-- one module.
use maubot.Base.{◌↔◌, ◌≡◌, ◌≢◌, refl, String, true, false, Option, none, some, List, [], ◌∷◌}
use maubot.Base.Dict.{Dict, lookup, insert}
use maubot.Base.Text.{append}
use mathlib.Core.List.{Memᴰ}
use maubot.Cli.{Config, login, upload_target, saved_token, store_token}
use maubot.Cli.Accounts.{upload_target-login}
use maubot.Cli.Prompts.{Value, null, text, flag, Question, one, any, remaining}
use maubot.Cli.Excuses.{IsOpen, remaining-asks}
use maubot.Cli.Build.{
  Disk, file, build, read_meta, build_plugin, read_output_path, write_to, write_plugin, replace,
}
use maubot.Cli.Overwriting.{IsModule, build-asks}
use maubot.Examples.{meta}

abbrev fresh : Config
fresh = record { servers = []; aliases = []; default_server = none }

abbrev stored : Config
stored = login "http://hs" 200 "token" "home" fresh

upload_target-login_example :
    (upload_target stored (some "home") ≡ some (some "http://hs", "token"))
    × ((s : String) → s ≢ "http://hs" → saved_token stored s ≡ saved_token fresh s)
unfolding login store_token lookup insert
upload_target-login_example =
    upload_target-login "http://hs" "token" "home" fresh (λ e. cc e) (λ e. cc e) (λ e. cc e) refl

-- `mbc auth --sso` with a homeserver: neither the name nor the password is asked.
abbrev given : Dict Value
given = ("homeserver", text "hs") ∷ ("username", null) ∷ ("sso", flag true) ∷ []

abbrev questions : Dict Question
questions =
    ("homeserver", record { is_confirm = false; required_unless = one "list" })
    ∷ ("username", record { is_confirm = false; required_unless = any ("list" ∷ "sso" ∷ []) })
    ∷ []

-- The question for the user name.
abbrev user_question : Question
user_question = record { is_confirm = false; required_unless = any ("list" ∷ "sso" ∷ []) }

remaining-asks_example :
    (lookup "username" (remaining given given questions) ≡ some user_question) ↔ (
      (lookup "username" questions ≡ some user_question)
      × IsOpen given user_question (lookup "username" given))
unfolding lookup
remaining-asks_example =
    remaining-asks given questions "username" user_question (refl, (refl, (refl, tt)))

-- A disk with one module and an archive of the last build.
abbrev disk : Disk
disk = record {
  exists = λ p. true;
  is_file = λ p. true;
  is_dir = λ p. false;
  walk = λ p. [];
  glob = λ p. [];
  join = append;
  abspath = λ p. p;
  cwd = "/";
  override = λ p. some true;
  removable = λ p. true;
}

abbrev no_extra_files : List String
no_extra_files = []

-- The file system is the same from everywhere.
abbrev view : String → (removed written : Option String) → Disk
view directory removed written = disk

build-asks_example :
    (disk.override "old.mbp" ≡ some true)
    × (◌≡◌ {A = Option String} (some "old.mbp") (some "old.mbp"))
    × ("old.mbp" ≡ disk.abspath "old.mbp")
    × ((m p : String)
        → Memᴰ m meta.modules
        → IsModule disk (λ m. no_extra_files) m p
        → Memᴰ (file p) (write_plugin disk (λ m. no_extra_files) meta))
unfolding build read_meta build_plugin read_output_path replace write_to
build-asks_example =
    build-asks view "/" "/plugin" (λ m. no_extra_files) meta "old.mbp" false false "old.mbp"
      (write_plugin disk (λ m. no_extra_files) meta) (some "old.mbp") (λ e. cc e) refl refl refl
