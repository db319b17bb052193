-- ===== src/Instance/Failing.antt =====
-- `start` of an instance whose plugin or database does not start.
use maubot.Base.{◌∷◌, ℕ, ◌≡◌, Bool, false, Option, some, arith, eq_refl}
use maubot.Base.Dict.{lookup, lookup-insert}
use maubot.Base.Exec.{Exc, ok, err}
use maubot.World.{World, InstanceRow, PluginClass, PluginMeta}
use maubot.World
use maubot.World.Env.{Env}
use maubot.World.Access.{set_instance}
use maubot.Instance.{update_enabled}
use maubot.Instance.Lifecycle.{run_plugin}

-- The instance is disabled, and so is its row in the table.
abbrev pub IsDisabled : ℕ → World → Type 0
IsDisabled a w =
    ((w.instances a).enabled ≡ false)
    × ((w.instances a).started ≡ false)
    × (lookup (w.instances a).id w.instance_table ≡ some (w.instances a).row)

abbrev pub IsSaved : ℕ → World → Type 0
IsSaved a w = lookup (w.instances a).id w.instance_table ≡ some (w.instances a).row

update_enabled-IsDisabled :
    (a : ℕ) (w : World)
    → (w.instances a).started ≡ false
    → IsSaved a w
    → IsDisabled a (update_enabled a (some false) w).1
unfolding update_enabled
update_enabled-IsDisabled a w idle saved =
    let r : InstanceRow = record ((w.instances a).row) { enabled = false } in
    ground (arith, lookup-insert r.id r.id r w.instance_table, eq_refl r.id)

update_enabled-total : (a : ℕ) (w : World) (b : Option Bool) → (update_enabled a b w).0 ≡ ok tt
unfolding update_enabled
update_enabled-total a w b = ground arith

module _ (env : Env) (a : ℕ) (w : World) (idle : (w.instances a).started ≡ false)
    (saved : IsSaved a w) where
  -- A plugin whose own start raises leaves its instance disabled, in memory and in its row, and not
  -- started; the exception goes no further.
  pub run_plugin-fails :
      (cls : PluginClass) (x : Exc)
      → env.plugin_init a w.trace ≡ ok tt
      → env.plugin_start a (World.plugin_init a ∷ w.trace) ≡ err x
      → ((run_plugin env a cls w).0 ≡ ok tt) × IsDisabled a (run_plugin env a cls w).1
  unfolding run_plugin
  run_plugin-fails cls x made failed =
      let i = record (w.instances a) { plugin = some cls } in
      let v : World = record (set_instance a i w) {
        trace = World.plugin_start a ∷ World.plugin_init a ∷ w.trace;
      } in
      rw (made, failed)
        (
          update_enabled-total a v (some false),
          update_enabled-IsDisabled a v (ground arith) (ground (arith, saved)),
        )
