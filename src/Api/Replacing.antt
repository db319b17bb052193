-- ===== src/Api/Replacing.antt =====
-- The roll back of an upload that replaces an archive (maubot/management/api/plugin_upload.py).
use maubot.Base.{ℕ, ◌≡◌, ◌≢◌, refl, String, List, [], ⊤, none, some, ◌∷◌, true, arith, ◌∙◌}
use maubot.Base.Dict.{lookup, insert}
use maubot.Base.Exec.{Exc, Result, ok, err, continue}
use maubot.World.{World, Call, PluginClass}
use maubot.World.Env.{Env}
use maubot.World.Gather.{gather, select}
use maubot.Loader
use maubot.Loader.Files.{trash}
use maubot.Loader.Trashing.{trash_gone}
use maubot.Loader.Rollback.{ReadsFrom, reload_rolls_back}
use maubot.Instance.Homes.{IsHome, gather-start-Home}
use maubot.Instance.Lifecycle.{stop}
use maubot.Instance.Stopping.{gather-stop-total}
use maubot.World.Refs.{RefSet}
use maubot.Instance.Stores.{stop_database}
use maubot.Api.Plugins.{
  roll_back_load, rolled_back, after_load_failure, after_reload, is_zip_error, stop_instances,
  start_instances, upload_replacement_plugin,
}

-- The state in front of the first `reload` of the handler.
abbrev pub uploaded : Env → ℕ → String → String → World → World
uploaded env a content p w =
    (stop_instances env a (record w { files = insert p content w.files })).1

module _ (env : Env) where
  stop-loaders :
      (i : ℕ) (w : World)
      → ((stop env i w).1.loaders ≡ w.loaders) × ((stop env i w).1.path_cache ≡ w.path_cache)
  unfolding stop stop_database
  stop-loaders i w = ground arith

  gather-stop-loaders :
      (refs : RefSet) (w : World)
      → let w' = (gather (stop env) refs w).1 in
        (w'.loaders ≡ w.loaders) × (w'.path_cache ≡ w.path_cache)
  unfolding gather
  gather-stop-loaders [] w = (refl, refl)
  gather-stop-loaders ((_, i) ∷ refs) w =
      let (loaders, paths) = stop-loaders i w in
      let (loaders', paths') = gather-stop-loaders refs (stop env i w).1 in
      (loaders' ∙ loaders, paths' ∙ paths)

  module _ (a : ℕ) (content old p : String) (w : World) where
    uploaded-ReadsFrom : ReadsFrom a old w → ReadsFrom a old (uploaded env a content p w)
    unfolding stop_instances
    uploaded-ReadsFrom (here, hit, read) =
        let (loaders, paths) =
          gather-stop-loaders (select (λ i. (w.instances i).started) (w.loaders a).references)
            (record w { files = insert p content w.files }) in
        (rw loaders here, rw paths hit, rw loaders read)

    upload_steps :
        let w₁ = uploaded env a content p w in
        upload_replacement_plugin env a content p w
        ≡ after_reload env a p
            (w.loaders a).path
            (Loader.reload env a (some p) w₁).0
            (Loader.reload env a (some p) w₁).1
    unfolding upload_replacement_plugin stop_instances
    upload_steps = rw (gather-stop-total env _ _) refl

    -- Behind the second `reload`, whether or not it raises.
    roll_back_load-IsHome :
        (w₂ : World)
        → IsHome a old p (Loader.reload env a (some old) w₂).1
        → IsHome a old p (roll_back_load env a (some old) w₂).1
    unfolding start_instances
    roll_back_load-IsHome w₂ h = go (Loader.reload env a (some old) w₂).0
      where
        go :
            (r : Result PluginClass)
            → IsHome a old p
                (continue r (λ _. start_instances env a) (Loader.reload env a (some old) w₂).1).1
        go (ok plugin) = gather-start-Home env a old p _ _ h
        go (err e) = h

    trash-IsHome :
        (reason : String) (v : World) → IsHome a old p v → IsHome a old p (trash env p reason v).1
    unfolding trash
    trash-IsHome reason v h = ground arith

    rolled_back-state : (r : Result ⊤) (v : World) → (rolled_back env r v).1 ≡ v
    rolled_back-state (ok _) v = refl
    rolled_back-state (err e) v = ground arith

    after_load_failure-state :
        (w₂ : World)
        → let (r, v) = roll_back_load env a (some old) w₂ in
          (trash env p "failed_update" v).0 ≡ ok tt
          → (after_load_failure env a p (some old) w₂).1 ≡ (trash env p "failed_update" v).1
    after_load_failure-state w₂ done =
        let (r, v) = roll_back_load env a (some old) w₂ in
        rw done (rolled_back-state r (trash env p "failed_update" v).1)

-- An upload that replaces an archive by one at another path, whose reload ends in one of the import
-- errors of maubot, goes back: whether or not the old archive loads again and its instances start,
-- the loader reads from the old path, where the cache has it; the cache has nothing at the new path,
-- and the new file is gone from it. The loader read from the old path before and had a definition,
-- and the trash does not keep the file at its path and can remove it.
pub upload_rolls_back :
    (env : Env) (a : ℕ) (content old p : String) (w : World) (e : Exc)
    → ReadsFrom a old w
    → p ≢ old
    → (Loader.reload env a (some p) (uploaded env a content p w)).0 ≡ err e
    → is_zip_error e ≡ true
    → ((t : List Call) → env.trash_name p "failed_update" t ≢ p)
    → ((t : List Call) → env.remove_works p t ≡ true)
    → let w' = (upload_replacement_plugin env a content p w).1 in
      IsHome a old p w' × (lookup p w'.files ≡ none)
upload_rolls_back env a content old p w e reads other fails zip moved removable =
    let w₁ : World = uploaded env a content p w in
    let w₂ : World = (Loader.reload env a (some p) w₁).1 in
    let v : World = (roll_back_load env a (some old) w₂).1 in
    let (_, _, (here, hit, _), left) =
      reload_rolls_back env a old p w₁ (uploaded-ReadsFrom env a content old p w reads) other in
    let home = roll_back_load-IsHome env a content old p w w₂ (here, hit, left) in
    let (done, no_file, _, _) = trash_gone env p "failed_update" v (moved v.trace) removable in
    rw
      (
        upload_steps env a content old p w,
        fails,
        zip,
        reads.0,
        after_load_failure-state env a content old p w w₂ done,
      )
      (trash-IsHome env a content old p w "failed_update" v home, no_file)
