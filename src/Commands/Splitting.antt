-- ===== src/Commands/Splitting.antt =====
-- Theorems on _split_in_two and on the words of SimpleArgument (maubot/handlers/command.py).
use Prim.Native.Char.{Char, code}
use maubot.Base.{
  sym, length, inl, inr, List, [], ◌∷◌, Bool-cases, All, ◌∷◌, arith, if◌then◌else◌, List, ℕ, String,
  none, some, ◌≡◌, refl, Bool, true, false, ◌∙◌, ap, nat_eq,
}
use maubot.Base.Rules.{nat_eq_sound}
use maubot.Base.Texts.{drop-append}
use maubot.Base.Text.{before, after, append}
use maubot.Base.Dict.{insert}
use maubot.Commands.{Argument, Args, Python, text, simple}
use maubot.Commands.Words.{is_space, word, split_in_two, strip, lstrip, rstrip, is_empty}
use maubot.Commands.Arguments.{bind_one, match_value, parse_args, bound}

-- The text has no whitespace.
unfoldable pub spaceless : String → Bool
spaceless String.[] = true
spaceless (String.◌∷◌ c s) = let rest = spaceless s in if is_space (code c) then false else rest

-- A text that is not empty and has no whitespace.
unfoldable pub IsWord : String → Type 0
IsWord s = (is_empty s ≡ false) × (spaceless s ≡ true)

space-IsSpace : is_space b' ' ≡ true
unfolding is_space
space-IsSpace = refl

space-unless : (n : ℕ) → is_space n ≡ false → nat_eq n b' ' ≡ false
space-unless n h = elim (Bool-cases (nat_eq n b' ')) [
  | inl same ↦ cc (h, space-IsSpace, ap is_space (nat_eq_sound n b' ' same))
  | inr other ↦ other
]

spaceless-head :
    (c : Char) (s : String)
    → spaceless (String.◌∷◌ c s) ≡ true
    → (is_space (code c) ≡ false) × (spaceless s ≡ true)
unfolding spaceless
spaceless-head c s h = (ground arith, ground arith)

before-append : (a b : String) → spaceless a ≡ true → before b' ' (append a (append " " b)) ≡ a
unfolding before append
before-append String.[] b h = refl
before-append (String.◌∷◌ c a) b h =
    let (sp, rest) = spaceless-head c a h in
    ground (arith, before-append a b rest, space-unless (code c) sp)

after-append : (a b : String) → spaceless a ≡ true → after b' ' (append a (append " " b)) ≡ some b
unfolding after append
after-append String.[] b h = refl
after-append (String.◌∷◌ c a) b h =
    let (sp, rest) = spaceless-head c a h in
    ground (arith, after-append a b rest, space-unless (code c) sp)

-- A command and what follows it, with a space between, come apart again.
pub split_in_two-append :
    (command rest : String)
    → spaceless command ≡ true
    → split_in_two (append command (append " " rest)) ≡ (command, rest)
unfolding split_in_two
split_in_two-append command rest h = cc (before-append command rest h, after-append command rest h)

before_self : (a : String) → spaceless a ≡ true → before b' ' a ≡ a
unfolding before
before_self String.[] h = refl
before_self (String.◌∷◌ c a) h =
    let (sp, rest) = spaceless-head c a h in
    ground (arith, before_self a rest, space-unless (code c) sp)

after_self : (a : String) → spaceless a ≡ true → after b' ' a ≡ none
unfolding after
after_self String.[] h = refl
after_self (String.◌∷◌ c a) h =
    let (sp, rest) = spaceless-head c a h in
    ground (arith, after_self a rest, space-unless (code c) sp)

pub split_in_two-word : (a : String) → spaceless a ≡ true → split_in_two a ≡ (a, "")
unfolding split_in_two
split_in_two-word a h = rw (before_self a h, after_self a h) refl

-- The words that are typed as arguments, each with a space before it.
unfoldable pub typed : List String → String
typed [] = ""
typed (w ∷ ws) = append " " (append w (typed ws))

word-append : (w : String) (ws : List String) → spaceless w ≡ true → word (append w (typed ws)) ≡ w
unfolding word append typed is_space
word-append String.[] [] h = refl
word-append String.[] (v ∷ ws) h = refl
word-append (String.◌∷◌ c w) ws h =
    let (sp, rest) = spaceless-head c w h in ground (arith, word-append w ws rest, sp)

rstrip-append :
    (w s : String) → spaceless w ≡ true → rstrip s ≡ s → rstrip (append w s) ≡ append w s
unfolding rstrip append
rstrip-append String.[] s h e = e
rstrip-append (String.◌∷◌ c w) s h e =
    let (sp, rest) = spaceless-head c w h in ground (arith, rstrip-append w s rest e, sp)

rstrip-space :
    (c : Char) (s : String)
    → rstrip s ≡ s
    → is_empty s ≡ false
    → rstrip (String.◌∷◌ c s) ≡ String.◌∷◌ c s
unfolding rstrip
rstrip-space c s e full = ground (arith, e, full, ap is_empty e)

is_empty-append : (w s : String) → is_empty w ≡ false → is_empty (append w s) ≡ false
unfolding is_empty append
is_empty-append String.[] s h = cc
is_empty-append (String.◌∷◌ c w) s h = refl

rstrip_nil : rstrip "" ≡ ""
unfolding rstrip
rstrip_nil = refl

rstrip-typed : (ws : List String) → All IsWord ws → rstrip (typed ws) ≡ typed ws
unfolding typed IsWord append
rstrip-typed [] h = rstrip_nil
rstrip-typed (w ∷ ws) ((full, word_h), h) =
    rstrip-space " " (append w (typed ws)) (rstrip-append w (typed ws) word_h (rstrip-typed ws h))
      (is_empty-append w (typed ws) full)

lstrip-word : (w s : String) → IsWord w → lstrip (append w s) ≡ append w s
unfolding lstrip append IsWord is_empty
lstrip-word String.[] s (full, _) = cc
lstrip-word (String.◌∷◌ c w) s (_, h) = let (sp, rest) = spaceless-head c w h in ground (arith, sp)

strip-typed :
    (w : String) (ws : List String)
    → IsWord w
    → All IsWord ws
    → strip (typed (w ∷ ws)) ≡ append w (typed ws)
unfolding strip lstrip typed append IsWord is_space
strip-typed w ws h hs =
    ap rstrip (lstrip-word w (typed ws) h) ∙ rstrip-append w (typed ws) h.1 (rstrip-typed ws hs)

-- The same without the first space.
pub strip-words :
    (w : String) (ws : List String)
    → IsWord w
    → All IsWord ws
    → strip (append w (typed ws)) ≡ strip (typed (w ∷ ws))
unfolding strip IsWord
strip-words w ws h hs =
    ap rstrip (lstrip-word w (typed ws) h)
    ∙ (rstrip-append w (typed ws) h.1 (rstrip-typed ws hs) ∙ sym (strip-typed w ws h hs))

-- Required arguments of the given names that take one word each.
abbrev pub word_argument : String → Argument
word_argument n = record { name = n; label = n; required = true; pass_raw = false; kind = simple }

unfoldable pub words_of : List String → List Argument
words_of [] = []
words_of (n ∷ ns) = word_argument n ∷ words_of ns

-- The arguments that the words bind, in order.
unfoldable pub bindings : List String → List String → Args → Args
bindings (n ∷ ns) (w ∷ ws) args = bindings ns ws (insert n (some (text w)) args)
bindings _ _ args = args

-- Words that are typed with a space before each are what the arguments are bound to, and nothing is
-- left of the text.
pub parse_args-typed :
    (py : Python) (usage : String) (names words : List String) (args : Args)
    → length names ≡ length words
    → All IsWord words
    → parse_args py usage (words_of names) args (typed words) ≡ bound (bindings names words args) ""
unfolding IsWord parse_args words_of bindings match_value bind_one typed
parse_args-typed py usage [] [] args e h = refl
parse_args-typed py usage [] (w ∷ ws) args e h = cc
parse_args-typed py usage (n ∷ ns) [] args e h = cc
parse_args-typed py usage (n ∷ ns) (w ∷ ws) args e (word_h, h) =
    rw (strip-typed w ws word_h h, word-append w ws word_h.1, drop-append w (typed ws))
      (parse_args-typed py usage ns ws (insert n (some (text w)) args) (omega (arith, e)) h)
