-- ===== src/Instance/Renaming.antt =====
-- `update_id` moves the row of the table, and neither the cache nor the sets of references.
use maubot.Base.{ℕ, ◌≡◌, ◌≢◌, String, false, none, some, arith, eq_iff, eq_refl}
use maubot.Base.Dict.{lookup, insert, erase, lookup-erase, lookup-insert}
use maubot.Base.Exec.{ok, err, key_error}
use maubot.World.{World, InstanceRow}
use maubot.World.Env.{Env}
use maubot.World.Access.{equal_to}
use maubot.World.Refs.{holds}
use maubot.Instance
use maubot.Instance.Stores.{delete}
use maubot.Instance.Update.{update_id}
use maubot.Instance.Links.{delete-unlisted}

-- An id that is in the table and not in the cache makes a new object.
get-uncached :
    (id : String) (w : World) (r : InstanceRow)
    → lookup id w.instance_cache ≡ none
    → lookup id w.instance_table ≡ some r
    → (Instance.get id none none w).0 ≡ ok (some w.next_instance)
unfolding Instance.get Instance.postinit
get-uncached id w r miss present = ground arith

module _ (env : Env) (a : ℕ) (new_id : String) (w : World) (row : InstanceRow)
    (other : env.lower new_id ≢ (w.instances a).id)
    (stored : lookup (w.instances a).id w.instance_table ≡ some row)
    (free : lookup (env.lower new_id) w.instance_table ≡ none) where
  abbrev after : World
  after = (update_id env a (some new_id) w).1

  update_id-after :
      (after.instances
        ≡ (Instance.modify_instance a
            (Instance.with_row (λ r. record r { id = env.lower new_id }))
            w).1.instances)
      × (after.instance_table
          ≡ insert
              (env.lower new_id)
              (record row { id = env.lower new_id })
              (erase (w.instances a).id w.instance_table))
      × (after.instance_cache ≡ w.instance_cache)
      × (after.loaders ≡ w.loaders)
  unfolding update_id
  update_id-after = ground (arith, eq_iff (env.lower new_id) (w.instances a).id)

  -- `update_id` of an instance that has a row, to an id whose lower case is not its own and has no row:
  -- the instance has the new id in lower case, the row stands under it with no other change, and no row
  -- stands under the old one.
  update_id_moves_row :
      ((after.instances a).id ≡ env.lower new_id)
      × (lookup (env.lower new_id) after.instance_table
          ≡ some (record row { id = env.lower new_id }))
      × (lookup (w.instances a).id after.instance_table ≡ none)
  update_id_moves_row =
      let (objects, rows, _, _) = update_id-after in
      (
        rw objects (ground arith),
        rw (rows, lookup-insert, eq_refl),
        rw (rows, lookup-insert, lookup-erase, eq_refl)
            (ground (arith, eq_iff (env.lower new_id) (w.instances a).id)),
      )

  -- After `update_id` of an instance that has a row and is in the cache, to an id whose lower case is
  -- not its own and has neither row nor cache entry: the cache still has the instance under its old id,
  -- and a lookup of the new id makes a second object for the same row.
  update_id_leaves_cache :
      lookup (w.instances a).id w.instance_cache ≡ some a
      → lookup (env.lower new_id) w.instance_cache ≡ none
      → (lookup (w.instances a).id after.instance_cache ≡ some a)
        × ((Instance.get (env.lower new_id) none none after).0 ≡ ok (some after.next_instance))
  update_id_leaves_cache here miss =
      let (_, rows, cached, _) = update_id-after in
      let (_, present, _) = update_id_moves_row in
      (
        rw cached here,
        get-uncached (env.lower new_id) after (record row { id = env.lower new_id })
            (rw cached miss) present,
      )

  -- After `update_id` of an instance that has a row and a loader, to an id whose lower case is not its
  -- own and has no row: `delete` raises KeyError and changes nothing, where the loader's set holds,
  -- under the hash of the new id, neither the instance nor an object that is equal to it by then.
  pub update_id-delete :
      (l : ℕ)
      → (w.instances a).loader ≡ some l
      → holds (env.hash (env.lower new_id)) (equal_to a after.instances) (w.loaders l).references
        ≡ false
      → delete env a after ≡ (err key_error, after)
  update_id-delete l loaded absent =
      let (objects, _, _, same) = update_id-after in
      delete-unlisted env a l after (rw objects (ground arith)) (rw (objects, same) (ground arith))
