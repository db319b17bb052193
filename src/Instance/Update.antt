-- ===== src/Instance/Update.antt =====
-- The `update_*` methods of maubot/instance.py, and `update_id` of maubot/db/instance.py.
use maubot.Base.{
  ⊤, ℕ, String, Bool, true, false, ◌&&◌, Option, none, some, ◌==◌, if◌then◌else◌, bool_eq, is_some,
}
use maubot.Base.Dict.{lookup, insert, erase, contains}
use maubot.Base.Exec.{Exec, other_error, pure, raise, gets, modify, skip, when, ◌>>=◌, ◌>>◌}
use maubot.World.{World, Instance, InstanceRow, Client, Loader}
use maubot.World
use maubot.World.Env.{Env, ask}
use maubot.Client
use maubot.Instance.{
  instance_at, modify_instance, save, with_row, meta_of, add_to_loader, add_to_client,
  remove_from_loader, remove_from_client,
}
use maubot.Instance.Lifecycle.{start, stop}

-- `DBInstance.update_id`: UPDATE instance SET id=$1 WHERE id=$2. The id is the primary key.
abbrev rename_row : String → String → World → World
rename_row old new_id w = elim (lookup old w.instance_table) [
  | none ↦ w
  | some r ↦ record w {
    instance_table = insert new_id (record r { id = new_id }) (erase old w.instance_table);
  }
]

unfoldable pub set_id : ℕ → String → Exec World ⊤
set_id a new_id = do
  i ← instance_at a
  taken ← gets (λ w. contains new_id w.instance_table && contains i.id w.instance_table)
  if taken then raise other_error else do
    modify (rename_row i.id new_id)
    modify_instance a (with_row (λ r. record r { id = new_id }))

module _ (env : Env) where
  -- `update_id`
  unfoldable pub update_id : ℕ → Option String → Exec World ⊤
  unfolding set_id
  update_id a none = skip
  update_id a (some given) = do
    i ← instance_at a
    if env.lower given == i.id then skip else set_id a (env.lower given)

  -- `update_config`
  unfoldable pub update_config : ℕ → Option String → Exec World ⊤
  update_config a none = skip
  update_config a (some config) = do
    i ← instance_at a
    if i.config_str == config then skip else do
      modify_instance a (with_row (λ r. record r { config_str = config }))
      when (i.started && is_some i.plugin) (ask (World.config_update a) (env.config_update a))
      save a

  -- The part of `update_primary_user` behind the lookup of the new client.
  unfoldable pub switch_user : ℕ → ℕ → Exec World ⊤
  switch_user a c = do
    stop env a
    user ← gets (λ w. (w.clients c).id)
    modify_instance a (with_row (λ r. record r { primary_user = user }))
    i ← instance_at a
    elim i.client [ none ↦ skip | some old ↦ remove_from_client env a old ]
    modify_instance a (λ o. record o { client = some c })
    add_to_client env a c
    save a
    start env a

  -- `update_primary_user`
  unfoldable pub update_primary_user : ℕ → Option String → Exec World Bool
  unfolding switch_user
  update_primary_user a none = pure true
  update_primary_user a (some user) = do
    i ← instance_at a
    if user == i.primary_user then pure true else do
      hit ← Client.get env user none none none
      elim hit [ none ↦ pure false | some c ↦ (do switch_user a c; pure true) ]

  unfoldable pub switch_type : ℕ → ℕ → Exec World ⊤
  switch_type a l = do
    stop env a
    meta ← meta_of env (some l)
    modify_instance a (with_row (λ r. record r { type = meta.id }))
    i ← instance_at a
    elim i.loader [ none ↦ skip | some old ↦ remove_from_loader env a old ]
    modify_instance a (λ o. record o { loader = some l })
    add_to_loader env a l
    save a
    start env a

  -- `update_type`
  unfoldable pub update_type : ℕ → Option String → Exec World Bool
  unfolding switch_type
  update_type a none = pure true
  update_type a (some type) = do
    i ← instance_at a
    if type == i.type then pure true else do
      hit ← gets (λ w. lookup type w.id_cache)
      elim hit [ none ↦ pure false | some l ↦ (do switch_type a l; pure true) ]

  -- `update_started`
  unfoldable pub update_started : ℕ → Option Bool → Exec World ⊤
  update_started a none = skip
  update_started a (some b) = do
    i ← instance_at a
    if bool_eq b i.started then skip else if b then start env a else stop env a
