-- ===== src/Instance/Deletion.antt =====
-- `delete` of an instance that stands in the references of its loader and its client.
use maubot.Base.{ℕ, ◌≡◌, false, none, some, arith, eq_refl}
use maubot.Base.Dict.{lookup, lookup-erase}
use maubot.Base.Exec.{ok}
use maubot.World.{World}
use maubot.World.Env.{Env}
use maubot.World.Access.{equal_to}
use maubot.World.Refs.{remove, RefSet}
use maubot.Instance.{remove_from_client, remove_from_loader}
use maubot.Instance.Stores.{delete}

-- An instance without a database and a web app, which the references of its loader and its client
-- hold under the hash of its id, is deleted: the cache and the table have its id no more, and the
-- two sets are what they were without it, or without an equal object that they have in its place.
pub delete_linked :
    (env : Env) (a c l : ℕ) (ls cs : RefSet) (w : World)
    → (w.instances a).loader ≡ some l
    → (w.instances a).client ≡ some c
    → (w.instances a).inst_db ≡ none
    → (w.instances a).inst_webapp ≡ false
    → remove (env.hash (w.instances a).id) (equal_to a w.instances) (w.loaders l).references
      ≡ some ls
    → remove (env.hash (w.instances a).id) (equal_to a w.instances) (w.clients c).references
      ≡ some cs
    → let (r, w') = delete env a w in
      (r ≡ ok tt)
      × (lookup (w.instances a).id w'.instance_cache ≡ none)
      × (lookup (w.instances a).id w'.instance_table ≡ none)
      × ((w'.loaders l).references ≡ ls)
      × ((w'.clients c).references ≡ cs)
unfolding delete remove_from_loader remove_from_client
delete_linked env a c l ls cs w has_loader has_client plain bare in_loader in_client =
    let id = (w.instances a).id in
    ground
      (arith, lookup-erase id id w.instance_cache, lookup-erase id id w.instance_table, eq_refl id)
