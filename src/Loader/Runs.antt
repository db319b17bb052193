-- ===== src/Loader/Runs.antt =====
-- The caches of loaders under any sequence of lookups, loads, reloads and deletions.
use maubot.Base.{
  refl, is_some_value, ℕ, ◌+◌, ◌<◌, ◌≡◌, ◌≢◌, String, Bool, true, false, Option, none, some, [],
  arith, eq_iff, inl, inr, Option-cases, default, is_some, ap, ◌∙◌,
}
use maubot.Base.Dict.{lookup, erase, update, lookup-erase}
use maubot.Base.Exec.{Exec, ◌>>◌, ◌>>=◌, pure, raise, other_error}
use maubot.Base.Rules.{Leads, Leads-bind}
use maubot.World.{World, PluginMeta}
use maubot.World.Env.{Env}
use maubot.Loader
use maubot.Loader.{loader_at, load_meta, get_importer, run_preload_checks}
use maubot.Loader.Files.{trash}
use maubot.Loader.Steady.{
  id_of, Steady, load-Same, Same-refl, load_meta-Same, get_importer-Same, Asks-Same,
  run_preload_checks-Asks,
}
use maubot.Loader.Caches.{
  unload-Same, unload-total, unload-loader, IsIndexed, Indexed-allocate, register_step,
  reload-IsIndexed, Steady-IsIndexed,
}

-- What `delete` leaves of the caches: the loader's own entries are gone.
record Removed (a : ℕ) (w v : World) (x : String) : Type 0 where
  ids : v.id_cache ≡ erase x w.id_cache
  paths : v.path_cache ≡ erase (default "" (w.loaders a).path) w.path_cache
  next : v.next_loader ≡ w.next_loader
  others : (b : ℕ) → b ≢ a → v.loaders b ≡ w.loaders b

module _ (a : ℕ) (w v : World) (x : String) (has_id : id_of (w.loaders a).meta ≡ some x)
    (h : IsIndexed w) (r : Removed a w v x) where
  old_id :
      (y : String) (b : ℕ) → lookup y v.id_cache ≡ some b → (y ≢ x) × (lookup y w.id_cache ≡ some b)
  old_id y b e =
      let e' = rw (r.ids, lookup-erase) at e in
      (ground (arith, eq_iff x y), ground (arith, eq_iff x y))

  old_path :
      (q : String) (b : ℕ)
      → lookup q v.path_cache ≡ some b
      → (q ≢ default "" (w.loaders a).path) × (lookup q w.path_cache ≡ some b)
  old_path q b e =
      let p = default "" (w.loaders a).path in
      let e' = rw (r.paths, lookup-erase) at e in
      (ground (arith, eq_iff p q), ground (arith, eq_iff p q))

  Removed-IsIndexed : IsIndexed v
  Removed-IsIndexed = record {
    by_id = λ y b e. ground (arith, old_id y b e, h.by_id y b, r.others b, has_id);
    by_path = λ q b e. ground (arith, old_path q b e, h.by_path q b, r.others b);
    id_old = λ y b e. ground (arith, old_id y b e, h.id_old y b, r.next);
    path_old = λ q b e. ground (arith, old_path q b e, h.path_old q b, r.next);
  }

module _ (env : Env) where
  forget-Removed :
      (a : ℕ) (w : World) (meta : PluginMeta)
      → (w.loaders a).meta ≡ some meta
      → Removed a w (Loader.forget env a w).1 meta.id
  unfolding Loader.forget trash
  forget-Removed a w meta e = record {
    ids = ground arith;
    paths = ground arith;
    next = ground arith;
    others = λ b ne. ground arith;
  }

  delete_steps :
      (a : ℕ) (w : World)
      → is_some (w.loaders a).meta ≡ true
      → Loader.delete env a w ≡ Loader.forget env a (Loader.unload env a w).1
  unfolding Loader.delete
  delete_steps a w read = rw (unload-total env a w read) refl

  -- Only the deletion of a loader that the cache of ids names is asked for.
  delete-IsIndexed :
      (a : ℕ) (w : World)
      → is_some (w.loaders a).meta ≡ true
      → IsIndexed w
      → IsIndexed (Loader.delete env a w).1
  delete-IsIndexed a w read h =
      let w₁ : World = (Loader.unload env a w).1 in
      let (meta, e) = is_some_value (w.loaders a).meta read in
      let e₁ : (w₁.loaders a).meta ≡ some meta = ground (arith, unload-loader env a w) in
      rw (delete_steps a w read) (
        Removed-IsIndexed a w₁ (Loader.forget env a w₁).1 meta.id (ap id_of e₁)
          (Steady-IsIndexed a w w₁ (unload-Same env a w) h) (forget-Removed a w₁ meta e₁))

  -- `__init__`, behind the creation of the object.
  abbrev checked : ℕ → String → Exec World ℕ
  checked a path = do
    load_meta env a
    importer ← get_importer env a false
    run_preload_checks env a importer
    l ← loader_at a
    elim l.meta [ none ↦ raise other_error | some meta ↦ Loader.register env a path meta.id ]
    pure a

  module _ (a : ℕ) (path : String) (w : World) (h : IsIndexed w) (new : a < w.next_loader)
      (has_path : (w.loaders a).path ≡ some path) where
    enough : (v : World) → Steady a w v → IsIndexed v
    enough v s = Steady-IsIndexed a w v s h

    checked-IsIndexed : Leads (Steady a w) IsIndexed (checked a path)
    checked-IsIndexed = Leads-bind (load_meta env a) _ enough (load_meta-Same env a w) λ _.
        Leads-bind (get_importer env a false) _ enough (get_importer-Same env a w false) λ importer.
          Leads-bind (run_preload_checks env a importer) _ enough
            (record {
              at = λ v s.
                  Asks-Same env a w v (run_preload_checks env a importer v).1
                    (run_preload_checks-Asks env a w importer v) s;
            })
            λ _. record {
              at = λ v s.
                  register_step env a path w v s (enough v s) (rw s.next new) (s.path ∙ has_path);
            }

  init-IsIndexed : (path : String) (w : World) → IsIndexed w → IsIndexed (Loader.init env path w).1
  unfolding Loader.init
  init-IsIndexed path w h =
      let a : ℕ = w.next_loader in
      let l = Loader.new_loader env path in
      let w₁ : World = record w { loaders = update w.loaders a l; next_loader = a + 1 } in
      (checked-IsIndexed a path w₁ (Indexed-allocate w l h) (ground arith) (ground arith)).at w₁
        (Same-refl env a w₁)

  get-IsIndexed : (path : String) (w : World) → IsIndexed w → IsIndexed (Loader.get env path w).1
  unfolding Loader.get
  get-IsIndexed path w h = elim (Option-cases (lookup (env.abspath path) w.path_cache)) [
    | inl miss ↦ rw miss (init-IsIndexed (env.abspath path) w h)
    | inr (a, hit) ↦ rw hit h
  ]

  -- The states that lookups by path, loads, reloads and deletions lead to, one after another. The
  -- handlers reload and delete the loaders that they find under an id.
  pub data Reached (start : World) : World → Type 0 where
    nothing : Reached start start
    got : (path : String) {w : World} → Reached start w → Reached start (Loader.get env path w).1
    loaded :
        (a : ℕ) (reset : Bool) {w : World}
        → Reached start w
        → Reached start (Loader.load env a reset w).1
    reloaded :
        (id : String) (a : ℕ) (path : Option String) {w : World}
        → lookup id w.id_cache ≡ some a
        → Reached start w
        → Reached start (Loader.reload env a path w).1
    deleted :
        (id : String) (a : ℕ) {w : World}
        → lookup id w.id_cache ≡ some a
        → Reached start w
        → Reached start (Loader.delete env a w).1

  Reached-IsIndexed : {start w : World} → IsIndexed start → Reached start w → IsIndexed w
  Reached-IsIndexed h nothing = h
  Reached-IsIndexed h (got path {w} r) = get-IsIndexed path w (Reached-IsIndexed h r)
  Reached-IsIndexed h (loaded a reset {w} r) =
      Steady-IsIndexed a w (Loader.load env a reset w).1 (load-Same env a w reset)
        (Reached-IsIndexed h r)
  Reached-IsIndexed h (reloaded id a path {w} found r) =
      let i = Reached-IsIndexed h r in
      reload-IsIndexed env a path w (ground (arith, i.by_id id a found)) (i.id_old id a found) i
  Reached-IsIndexed h (deleted id a {w} found r) =
      let i = Reached-IsIndexed h r in delete-IsIndexed a w (ground (arith, i.by_id id a found)) i

  -- The caches are empty when the program starts.
  abbrev pub IsFresh : World → Type 0
  IsFresh w = (w.id_cache ≡ []) × (w.path_cache ≡ [])

  IsFresh-IsIndexed : (w : World) → IsFresh w → IsIndexed w
  unfolding lookup
  IsFresh-IsIndexed w (ids, paths) = record {
    by_id = λ x a e. ground arith;
    by_path = λ p a e. ground arith;
    id_old = λ x a e. ground arith;
    path_old = λ p a e. ground arith;
  }

  module _ (start w : World) (fresh : IsFresh start) (r : Reached start w) where
    reached : IsIndexed w
    reached = Reached-IsIndexed (IsFresh-IsIndexed start fresh) r

    -- From empty caches, after any sequence of lookups by path, loads, reloads and deletions: a
    -- loader that the cache of ids has under an id has read a definition with this id, and the
    -- cache has it under no other id.
    pub id_cache_agrees :
        (x y : String) (a : ℕ)
        → lookup x w.id_cache ≡ some a
        → lookup y w.id_cache ≡ some a
        → (id_of (w.loaders a).meta ≡ some x) × (x ≡ y)
    id_cache_agrees x y a ex ey = ground (arith, reached.by_id x a ex, reached.by_id y a ey)

    -- From empty caches, after any sequence of lookups by path, loads, reloads and deletions: a loader
    -- that the cache of paths has under a path reads the archive at this path, and the cache has it
    -- under no other path.
    pub path_cache_agrees :
        (p q : String) (a : ℕ)
        → lookup p w.path_cache ≡ some a
        → lookup q w.path_cache ≡ some a
        → ((w.loaders a).path ≡ some p) × (p ≡ q)
    path_cache_agrees p q a ep eq = ground (arith, reached.by_path p a ep, reached.by_path q a eq)
