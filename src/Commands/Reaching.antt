-- ===== src/Commands/Reaching.antt =====
-- Theorems on a message that names a command (maubot/handlers/command.py).
use maubot.Base.{String, List, [], ◌∷◌}
use maubot.Base.Text.{append}
use maubot.Commands.Splitting.{typed}

-- What is left behind the name: the words with a space before each but the first.
left : List String → String
left [] = ""
left (w ∷ ws) = append w (typed ws)
