-- ===== src/Messages/Limits.antt =====
-- Theorems on the size of messages (maubot/matrix.py).
use maubot.Base.{
  Bool-cases, ◌||◌, String, ℕ, suc, zero, ◌+◌, ◌≤◌, ◌≡◌, refl, Bool, true, false, ◌⊎◌, inl, inr,
  ltb, ◌&&◌, arith,
}
use maubot.Base.Texts.{size-append}
use maubot.Base.Text.{size, take}
use maubot.Messages.{Markup, cut_off, parse_formatted}

size-take : (n : ℕ) (s : String) → size (take n s) ≤ n
unfolding size take
size-take zero s = omega arith
size-take (suc n) String.[] = omega arith
size-take (suc n) (String.◌∷◌ c s) = omega (arith, size-take n s)

abbrev marker : String
marker = "[long message cut off]"

size-marker : size marker ≡ 22
unfolding size
size-marker = refl

size-cut_off :
    (text html : String)
    → (size (cut_off text html) ≤ 122) ⊎ (size (cut_off text html) + size html ≤ 40000)
unfolding cut_off
size-cut_off text html =
    elim (Bool-cases (ltb 100 (size text) && ltb 40000 (size text + size html))) [
      | inl long ↦ inl (
          ground (arith, long, size-append (take 100 text) marker, size-take 100 text, size-marker))
      | inr short ↦ elim (Bool-cases (ltb 100 (size text))) [
        | inl big ↦ inr (ground (arith, short, big))
        | inr small ↦ inl (ground (arith, short, small))
      ]
    ]

-- A body and a formatted body that are parsed from HTML or Markdown have together at most 40000
-- characters, or the body has at most 122.
size-parse_formatted :
    (m : Markup) (message : String) (allow_html render_markdown : Bool)
    → (allow_html || render_markdown) ≡ true
    → (size (parse_formatted m message allow_html render_markdown).0 ≤ 122)
      ⊎ (size (parse_formatted m message allow_html render_markdown).0
            + size (parse_formatted m message allow_html render_markdown).1
          ≤ 40000)
unfolding parse_formatted
size-parse_formatted m message allow_html true e = size-cut_off _ _
size-parse_formatted m message true false e = size-cut_off _ _
size-parse_formatted m message false false e = cc
