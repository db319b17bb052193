-- ===== src/Cli/Accounts.antt =====
-- Theorems on the stored servers and tokens (maubot/cli/config.py, maubot/cli/commands/login.py).
use maubot.Base.{
  String, ◌==◌, ◌≡◌, ◌≢◌, refl, arith, Option, none, some, eq_refl, eq_iff, ◌∙◌, if◌then◌else◌,
}
use maubot.Base.Dict.{lookup, lookup-insert}
use maubot.Cli.{Config, saved_token, get_token, store_token, login, with_token, upload_target}

module _ (server token alias : String) (c : Config) where
  -- What the name finds, once the alias is resolved.
  get_token-eq :
      (name : String) (d : Config)
      → name ≢ ""
      → lookup name d.aliases ≡ some server
      → lookup server d.servers ≡ some token
      → get_token d (some name) ≡ (some server, some token)
  unfolding get_token saved_token
  get_token-eq name d e a t = ground (arith, eq_iff name "")

  get_token-eq_self :
      (d : Config)
      → server ≢ ""
      → lookup server d.aliases ≡ none
      → lookup server d.servers ≡ some token
      → get_token d (some server) ≡ (some server, some token)
  unfolding get_token saved_token
  get_token-eq_self d e a t = ground (arith, eq_iff server "")

  with_token-eq :
      (d : Config) (name : Option String)
      → token ≢ ""
      → get_token d name ≡ (some server, some token)
      → with_token d name ≡ some (some server, token)
  unfolding with_token
  with_token-eq d name e h = ground (arith, eq_iff token "", h)

  login-servers :
      (s : String)
      → lookup s (login server 200 token alias c).servers
        ≡ (if server == s then some token else lookup s c.servers)
  unfolding login store_token
  login-servers s = lookup-insert server s token c.servers

  login-alias : alias ≢ "" → lookup alias (login server 200 token alias c).aliases ≡ some server
  unfolding login store_token
  login-alias e =
      ground (arith, eq_iff alias "", lookup-insert alias alias server c.aliases, eq_refl alias)

  -- After a login with an alias, an upload to the alias goes to that server with the new token, and the
  -- tokens of the other servers are as they were; the alias, the server and the token are not empty, and
  -- the server's name is no alias itself.
  pub upload_target-login :
      alias ≢ ""
      → server ≢ ""
      → token ≢ ""
      → lookup server (login server 200 token alias c).aliases ≡ none
      → (upload_target (login server 200 token alias c) (some alias) ≡ some (some server, token))
        × ((s : String)
            → s ≢ server
            → saved_token (login server 200 token alias c) s ≡ saved_token c s)
  unfolding upload_target saved_token
  upload_target-login a b t h =
      let d = login server 200 token alias c in
      let own : lookup server d.servers ≡ some token =
        rw (login-servers server) (rw (eq_refl server) refl) in
      let first = with_token-eq d (some alias) t (get_token-eq alias d a (login-alias a) own) in
      let again = with_token-eq d (some server) t (get_token-eq_self d b h own) in
      (ground (arith, first, again), λ s other. login-servers s ∙ ground (arith, eq_iff server s))
