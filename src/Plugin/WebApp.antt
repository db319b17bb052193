-- ===== src/Plugin/WebApp.antt =====
-- The web app of a plugin (PluginWebApp of maubot/plugin_server.py) and the way of a request to it
-- (handle_plugin_path of maubot/server.py).
use maubot.Base.{if◌then◌else◌, String, ℕ, ◌-◌, Option, none, some, List, [], ◌∷◌, ◌++◌, nat_eq}
use maubot.Base.Text.{begins_with, drop, size}
use maubot.Base.Dict.{Dict}

-- The middlewares, which are functions of the plugin, by address.
unfoldable pub add_middleware : ℕ → List ℕ → List ℕ
add_middleware m ms = ms ++ (m ∷ [])

-- remove_middleware; `none` is the ValueError of an unknown one.
unfoldable pub remove_middleware : ℕ → List ℕ → Option (List ℕ)
remove_middleware m [] = none
remove_middleware m (n ∷ ns) =
    let rest = remove_middleware m ns in
    if nat_eq n m then some ns else elim rest [ none ↦ none | some left ↦ some (n ∷ left) ]

-- The end of PluginWebApp.handle: the handler inside the middlewares, the one added last outermost.
-- `apply` is what a middleware makes of a request and a handler.
module _ {R S : Type 0} (apply : ℕ → (R → S) → R → S) where
  unfoldable pub wrap : List ℕ → (R → S) → R → S
  wrap [] handler = handler
  wrap (m ∷ ms) handler = wrap ms (apply m handler)

-- handle_plugin_path: the app that a path goes to, by address, and the path that it sees; `none` is
-- the answer 404.
unfoldable pub handle_plugin_path {ℓ} : {A : Type ℓ} → Dict A → String → Option (A × String)
handle_plugin_path [] path = none
handle_plugin_path ((prefix, app) ∷ rest) path =
    let next = handle_plugin_path rest path in
    if begins_with path prefix then some (app, drop (size prefix - 1) path) else next
