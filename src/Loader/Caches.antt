-- ===== src/Loader/Caches.antt =====
-- The two caches of loaders: under an id stands the loader of the plugin with that id, under a path
-- the loader that reads this archive.
use maubot.Base.{
  is_some, none, some, refl, Option, Option-cases, inl, inr, Bool-cases, opt_eq, ap, true, eq_iff,
  ◌+◌, default, ℕ, ◌<◌, ◌≡◌, String, arith, nat_eq,
}
use maubot.Base.Dict.{lookup-erase, erase, lookup-insert, insert, update, Dict, lookup}
use maubot.World.{World, Loader}
use maubot.Loader.Steady.{id_of, Steady, load-Same}
use maubot.World.Env.{Env}
use maubot.Loader
use maubot.Loader.{loader_at}
use maubot.Base.Exec.{other_error, raise, pure, ◌>>◌, ◌>>=◌, ok}

pub record Indexed (loaders : ℕ → Loader) (ids paths : Dict ℕ) (next : ℕ) : Type 0 where
  pub by_id : (x : String) (a : ℕ) → lookup x ids ≡ some a → id_of (loaders a).meta ≡ some x
  pub by_path : (p : String) (a : ℕ) → lookup p paths ≡ some a → (loaders a).path ≡ some p
  pub id_old : (x : String) (a : ℕ) → lookup x ids ≡ some a → a < next
  pub path_old : (p : String) (a : ℕ) → lookup p paths ≡ some a → a < next

abbrev pub IsIndexed : World → Type 0
IsIndexed w = Indexed w.loaders w.id_cache w.path_cache w.next_loader

pub Steady-IsIndexed : (a : ℕ) (w v : World) → Steady a w v → IsIndexed w → IsIndexed v
Steady-IsIndexed a w v s h = record {
  by_id = λ x b e. by_id x b (rw s.ids at e);
  by_path = λ p b e. by_path p b (rw s.paths at e);
  id_old = λ x b e. rw s.next (h.id_old x b (rw s.ids at e));
  path_old = λ p b e. rw s.next (h.path_old p b (rw s.paths at e));
}
  where
    by_id : (x : String) (b : ℕ) → lookup x w.id_cache ≡ some b → id_of (v.loaders b).meta ≡ some x
    by_id x b e = elim (Bool-cases (nat_eq b a)) [
      | inl same ↦ ground (arith, h.by_id x b e, s.id x)
      | inr other ↦ ground (arith, h.by_id x b e, s.others b)
    ]

    by_path : (p : String) (b : ℕ) → lookup p w.path_cache ≡ some b → (v.loaders b).path ≡ some p
    by_path p b e = elim (Bool-cases (nat_eq b a)) [
      | inl same ↦ ground (arith, h.by_path p b e, s.path)
      | inr other ↦ ground (arith, h.by_path p b e, s.others b)
    ]

-- A new loader, which no cache names yet.
pub Indexed-allocate :
    (w : World) (l : Loader)
    → IsIndexed w
    → Indexed (update w.loaders w.next_loader l) w.id_cache w.path_cache (w.next_loader + 1)
Indexed-allocate w l h = record {
  by_id = λ x b e. ground (arith, h.by_id x b e, h.id_old x b e);
  by_path = λ p b e. ground (arith, h.by_path p b e, h.path_old p b e);
  id_old = λ x b e. ground (arith, h.id_old x b e);
  path_old = λ p b e. ground (arith, h.path_old p b e);
}

-- The registration of a loader under its id and its path.
Indexed-register :
    (w : World) (a : ℕ) (x p : String)
    → id_of (w.loaders a).meta ≡ some x
    → (w.loaders a).path ≡ some p
    → a < w.next_loader
    → IsIndexed w
    → Indexed w.loaders (insert x a w.id_cache) (insert p a w.path_cache) w.next_loader
Indexed-register w a x p has_id has_path old h = record {
  by_id = λ y b e. ground (arith, lookup-insert x y a w.id_cache, eq_iff x y, h.by_id y b, has_id);
  by_path = λ q b e.
      ground (arith, lookup-insert p q a w.path_cache, eq_iff p q, h.by_path q b, has_path);
  id_old = λ y b e. ground (arith, lookup-insert x y a w.id_cache, h.id_old y b);
  path_old = λ q b e. ground (arith, lookup-insert p q a w.path_cache, h.path_old q b);
}

-- A loader moves to another archive.
Indexed-move :
    (w : World) (a : ℕ) (p : String)
    → a < w.next_loader
    → IsIndexed w
    → Indexed
        (update w.loaders a (record (w.loaders a) { path = some p }))
        w.id_cache
        (insert p a (erase (default "" (w.loaders a).path) w.path_cache))
        w.next_loader
Indexed-move w a p old h = record {
  by_id = λ y b e. ground (arith, h.by_id y b e);
  by_path = λ q b e. ground (
    arith,
    lookup-insert p q a (erase (default "" (w.loaders a).path) w.path_cache),
    lookup-erase (default "" (w.loaders a).path) q w.path_cache,
    eq_iff p q,
    eq_iff (default "" (w.loaders a).path) q,
    h.by_path q b,
  );
  id_old = h.id_old;
  path_old = λ q b e. ground (
    arith,
    lookup-insert p q a (erase (default "" (w.loaders a).path) w.path_cache),
    lookup-erase (default "" (w.loaders a).path) q w.path_cache,
    h.path_old q b,
  );
}

module _ (env : Env) where
  -- `register`, behind the checks of `__init__`.
  pub register_step :
      (a : ℕ) (path : String) (w v : World)
      → Steady a w v
      → IsIndexed v
      → a < v.next_loader
      → (v.loaders a).path ≡ some path
      → let end = (do
        l ← loader_at a
        elim l.meta [ none ↦ raise other_error | some meta ↦ Loader.register env a path meta.id ]
        pure a) in
        IsIndexed (end v).1
  register_step a path w v s h old has_path = elim (Option-cases (v.loaders a).meta) [
    | inl nothing ↦ rw nothing h
    | inr (meta, e) ↦ rw e (elim (Option-cases (lookup meta.id v.id_cache)) [
      | inr (b, taken) ↦ rw taken h
      | inl free ↦ rw free (Indexed-register v a meta.id path (ap id_of e) has_path old h)
    ])
  ]

  pub unload-Same : (a : ℕ) (w : World) → Steady a w (Loader.unload env a w).1
  unfolding Loader.unload
  unload-Same a w = record {
    ids = ground arith;
    paths = ground arith;
    next = ground arith;
    path = ground arith;
    id = λ x e. ground arith;
    others = λ b ne. ground arith;
  }

  pub unload-total :
      (a : ℕ) (w : World) → is_some (w.loaders a).meta ≡ true → (Loader.unload env a w).0 ≡ ok tt
  unfolding Loader.unload
  unload-total a w read = ground arith

  pub unload-loader :
      (a : ℕ) (w : World)
      → (Loader.unload env a w).1.loaders a ≡ record (w.loaders a) { loaded = none }
  unfolding Loader.unload
  unload-loader a w = ground arith

  move_to-IsIndexed :
      (a : ℕ) (p : Option String) (w : World)
      → a < w.next_loader
      → IsIndexed w
      → IsIndexed (Loader.move_to env a p w).1
  unfolding Loader.move_to
  move_to-IsIndexed a none w old h = h
  move_to-IsIndexed a (some p) w old h = elim (Bool-cases (opt_eq (some p) (w.loaders a).path)) [
    | inl same ↦ rw same h
    | inr other ↦ rw other (Indexed-move w a p old h)
  ]

  move_to-total : (a : ℕ) (p : Option String) (w : World) → (Loader.move_to env a p w).0 ≡ ok tt
  unfolding Loader.move_to
  move_to-total a p w = ground arith

  pub reload_steps :
      (a : ℕ) (p : Option String) (w : World)
      → is_some (w.loaders a).meta ≡ true
      → Loader.reload env a p w
        ≡ Loader.load env a true (Loader.move_to env a p (Loader.unload env a w).1).1
  unfolding Loader.reload
  reload_steps a p w read =
      rw (unload-total a w read, move_to-total a p (Loader.unload env a w).1) refl

  pub reload-IsIndexed :
      (a : ℕ) (p : Option String) (w : World)
      → is_some (w.loaders a).meta ≡ true
      → a < w.next_loader
      → IsIndexed w
      → IsIndexed (Loader.reload env a p w).1
  reload-IsIndexed a p w read old h =
      let w₁ : World = (Loader.unload env a w).1 in
      let w₂ : World = (Loader.move_to env a p w₁).1 in
      let s₁ = unload-Same a w in
      let h₁ = Steady-IsIndexed a w w₁ s₁ h in
      let h₂ = move_to-IsIndexed a p w₁ (rw s₁.next old) h₁ in
      rw (reload_steps a p w read)
        (Steady-IsIndexed a w₂ (Loader.load env a true w₂).1 (load-Same env a w₂ true) h₂)
