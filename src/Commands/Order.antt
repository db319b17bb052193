-- ===== src/Commands/Order.antt =====
-- Theorems on the order of a command's arguments (maubot/handlers/command.py).
use maubot.Base.{ℕ, String, ◌≡◌, refl, List, [], ◌∷◌, ◌++◌, ap, ◌∙◌}
use maubot.Commands.{Argument, Handler, config, node}
use maubot.Commands.Decorators.{init, new, Options, decorate, reverse, add_argument}

reverse-snoc : (xs : List Argument) (a : Argument) → reverse (xs ++ (a ∷ [])) ≡ a ∷ reverse xs
unfolding reverse
reverse-snoc [] a = refl
reverse-snoc (x ∷ xs) a = ap (λ r. r ++ (x ∷ [])) (reverse-snoc xs a)

reverse_twice : (xs : List Argument) → reverse (reverse xs) ≡ xs
unfolding reverse
reverse_twice [] = refl
reverse_twice (x ∷ xs) = reverse-snoc (reverse xs) x ∙ ap (λ r. x ∷ r) (reverse_twice xs)

add_argument-arguments :
    (a : Argument) (h : Handler)
    → (config (add_argument a h)).arguments ≡ (config h).arguments ++ (a ∷ [])
unfolding add_argument config
add_argument-arguments a (node c subs) = refl

decorate-arguments :
    (f : ℕ) (name : String) (list : List Argument)
    → (config (decorate list (init f name))).arguments ≡ reverse list
unfolding decorate init reverse config
decorate-arguments f name [] = refl
decorate-arguments f name (a ∷ rest) =
    add_argument-arguments a (decorate rest (init f name))
    ∙ ap (λ r. r ++ (a ∷ [])) (decorate-arguments f name rest)

new-arguments :
    (o : Options) (h : Handler) → (config (new o h)).arguments ≡ reverse (config h).arguments
unfolding new config
new-arguments o (node c subs) = refl

-- A function below `new` and the decorators of its arguments takes them in the order in which they
-- are written.
new-decorate :
    (o : Options) (f : ℕ) (name : String) (list : List Argument)
    → (config (new o (decorate list (init f name)))).arguments ≡ list
new-decorate o f name list =
    new-arguments o (decorate list (init f name))
    ∙ ap reverse (decorate-arguments f name list)
    ∙ reverse_twice list
