-- ===== src/Commands/Words.antt =====
-- The string methods that the command handlers use: str.strip, str.split with a limit of one, and
-- re.split(r"\s", val, 1)[0].
use Prim.Native.Char.{code}
use maubot.Base.{
  if◌then◌else◌, leb, ℕ, String, Option, none, some, Bool, true, false, ◌&&◌, ◌||◌, nat_eq,
}
use maubot.Base.Text.{before, after}

-- str.isspace for one character, which `\s` and strip share.
unfoldable pub is_space : ℕ → Bool
is_space c =
    (leb 9 c && leb c 13)
    || (leb 28 c && leb c 32)
    || (leb 8192 c && leb c 8202)
    || nat_eq c 133
    || nat_eq c 160
    || nat_eq c 5760
    || nat_eq c 8232
    || nat_eq c 8233
    || nat_eq c 8239
    || nat_eq c 8287
    || nat_eq c 12288

unfoldable pub is_empty : String → Bool
is_empty String.[] = true
is_empty (String.◌∷◌ c s) = false

unfoldable pub lstrip : String → String
lstrip String.[] = String.[]
lstrip (String.◌∷◌ c s) = let rest = lstrip s in if is_space (code c) then rest else String.◌∷◌ c s

unfoldable pub rstrip : String → String
rstrip String.[] = String.[]
rstrip (String.◌∷◌ c s) =
    let rest = rstrip s in
    if is_space (code c) && is_empty rest then String.[] else String.◌∷◌ c rest

unfoldable pub strip : String → String
unfolding lstrip rstrip
strip s = rstrip (lstrip s)

-- re.split(r"\s", s, 1)[0]
unfoldable pub word : String → String
word String.[] = String.[]
word (String.◌∷◌ c s) =
    let rest = word s in if is_space (code c) then String.[] else String.◌∷◌ c rest

-- The second half of _split_in_two.
second : Option String → String
second none = ""
second (some s) = s

-- _split_in_two(val, " ")
unfoldable pub split_in_two : String → String × String
unfolding second before after
split_in_two val = (before b' ' val, second (after b' ' val))
