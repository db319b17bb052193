-- ===== src/Loader/Rollback.antt =====
-- `reload` with another archive, and the way back, as the upload of a replacement takes it.
use maubot.Base.{
  ◌==◌, ℕ, ◌≡◌, ◌≢◌, refl, String, true, Option, none, some, arith, eq_iff, eq_refl, is_some, ap,
  ◌∙◌, if◌then◌else◌, is_some_value,
}
use maubot.Base.Dict.{lookup, erase, lookup-erase, lookup-insert}
use maubot.World.{World, PluginMeta}
use maubot.World.Env.{Env}
use maubot.Loader
use maubot.Loader.Steady.{id_of, Steady, load-Same}
use maubot.Loader.Caches.{reload_steps, unload-Same}

-- The loader has a path, where the cache has it, and some definition.
abbrev pub ReadsFrom : ℕ → String → World → Type 0
ReadsFrom a p w =
    ((w.loaders a).path ≡ some p)
    × (lookup p w.path_cache ≡ some a)
    × (is_some (w.loaders a).meta ≡ true)

module _ (env : Env) (a : ℕ) (old p : String) where
  move_to-ReadsFrom :
      (w : World)
      → ReadsFrom a old w
      → let w' = (Loader.move_to env a (some p) w).1 in
        ReadsFrom a p w' × (lookup old w'.path_cache ≡ (if p == old then some a else none))
  unfolding Loader.move_to
  move_to-ReadsFrom w (here, hit, read) = ground (
    arith,
    eq_iff p old,
    eq_iff old p,
    eq_refl p,
    eq_refl old,
    lookup-insert p p a (erase old w.path_cache),
    lookup-insert p old a (erase old w.path_cache),
    lookup-erase old old w.path_cache,
  )

  Steady-ReadsFrom : (q : String) (w v : World) → Steady a w v → ReadsFrom a q w → ReadsFrom a q v
  Steady-ReadsFrom q w v s (here, hit, read) =
      let (meta, e) = is_some_value (w.loaders a).meta read in
      (
        s.path ∙ here,
        rw s.paths hit,
        has_meta (v.loaders a).meta meta.id (s.id meta.id (ap id_of e)),
      )
    where
      has_meta : (m : Option PluginMeta) (x : String) → id_of m ≡ some x → is_some m ≡ true
      has_meta none x e = cc
      has_meta (some m) x e = refl

  -- `reload` moves the loader to the archive that it is given, whether or not that archive loads.
  reload-ReadsFrom :
      (w : World)
      → ReadsFrom a old w
      → let w' = (Loader.reload env a (some p) w).1 in
        ReadsFrom a p w' × (lookup old w'.path_cache ≡ (if p == old then some a else none))
  reload-ReadsFrom w (here, hit, read) =
      let w₁ : World = (Loader.unload env a w).1 in
      let w₂ : World = (Loader.move_to env a (some p) w₁).1 in
      let w₃ : World = (Loader.load env a true w₂).1 in
      let s = load-Same env a w₂ true in
      let h₁ = Steady-ReadsFrom old w w₁ (unload-Same env a w) (here, hit, read) in
      let (there, gone) = move_to-ReadsFrom w₁ h₁ in
      rw (reload_steps env a (some p) w read) (Steady-ReadsFrom p w₂ w₃ s there, rw s.paths gone)

-- Two reloads one after the other, to another path and back, each of which may fail to load its
-- archive: behind the first the loader has the new path, behind the second the old one, where the
-- cache has it, and the cache has nothing at the path that it left.
pub reload_rolls_back :
    (env : Env) (a : ℕ) (old p : String) (w : World)
    → ReadsFrom a old w
    → p ≢ old
    → let w₁ = (Loader.reload env a (some p) w).1 in
      let w₂ = (Loader.reload env a (some old) w₁).1 in
      ReadsFrom a p w₁
      × (lookup old w₁.path_cache ≡ none)
      × ReadsFrom a old w₂
      × (lookup p w₂.path_cache ≡ none)
reload_rolls_back env a old p w h ne =
    let w₁ : World = (Loader.reload env a (some p) w).1 in
    let (there, gone) = reload-ReadsFrom env a old p w h in
    let (back, left) = reload-ReadsFrom env a p old w₁ there in
    (there, ground (arith, gone, eq_iff p old), back, ground (arith, left, eq_iff old p))
