-- ===== src/Loader/Trashing.antt =====
-- `trash`: the file is gone from its path, whether it was moved or removed, if it can be removed.
use maubot.Base.{
  List, ◌∷◌, true, ◌≡◌, ◌≢◌, String, none, arith, eq_iff, eq_refl, inl, inr, Option-cases,
}
use maubot.Base.Dict.{lookup, erase, lookup-erase, lookup-insert}
use maubot.Base.Exec.{ok}
use maubot.World.{World, Call, rename}
use maubot.World.Env.{Env}
use maubot.Loader.Files.{trash}

pub trash_gone :
    (env : Env) (path reason : String) (v : World)
    → env.trash_name path reason v.trace ≢ path
    → ((t : List Call) → env.remove_works path t ≡ true)
    → let v' = (trash env path reason v).1 in
      ((trash env path reason v).0 ≡ ok tt)
      × (lookup path v'.files ≡ none)
      × (v'.id_cache ≡ v.id_cache)
      × (v'.path_cache ≡ v.path_cache)
unfolding trash
trash_gone env path reason v moved removable =
    let target = env.trash_name path reason v.trace in
    elim (Option-cases (lookup path v.files)) [
      | inl absent ↦ ground (arith, absent)
      | inr (content, there) ↦ ground (
        arith,
        there,
        removable v.trace,
        removable (rename path ∷ v.trace),
        lookup-insert target path content (erase path v.files),
        lookup-erase path path v.files,
        eq_refl path,
        eq_iff target path,
      )
    ]
