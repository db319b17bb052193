-- ===== src/Loader/Steady.antt =====
-- Which loaders a load touches: one, and of that one neither the path nor the id.
use maubot.Base.{
  ◌∙◌, ℕ, ◌≡◌, ◌≢◌, refl, String, Bool, true, Option, none, some, List, [], ◌∷◌, arith, eq_iff, inl,
  inr, Option-cases, Bool-cases, default,
}
use maubot.Base.Exec.{◌>>◌}
use maubot.Base.Rules.{Result-cases, Leads, Leads-bind}
use maubot.World.{World, PluginMeta, get_code, find_module}
use maubot.World.Env.{Env}
use maubot.Base.Text.{dots_to_slashes}
use maubot.Loader.{
  loader_at, load_module, load_again, load_modules, import_modules, load, import_main, content_of,
  read_meta, load_meta, get_importer, find_modules, run_preload_checks,
}

-- The id that a loader's definition has, once it is read.
abbrev pub id_of : Option PluginMeta → Option String
id_of none = none
id_of (some meta) = some meta.id

-- What a step that works on the loader at `a` leaves as it was.
pub record Steady (a : ℕ) (w v : World) : Type 0 where
  pub ids : v.id_cache ≡ w.id_cache
  pub paths : v.path_cache ≡ w.path_cache
  pub next : v.next_loader ≡ w.next_loader
  pub path : (v.loaders a).path ≡ (w.loaders a).path
  pub id : (x : String) → id_of (w.loaders a).meta ≡ some x → id_of (v.loaders a).meta ≡ some x
  pub others : (b : ℕ) → b ≢ a → v.loaders b ≡ w.loaders b

module _ (env : Env) (a : ℕ) (w : World) where
  abbrev pub Same : World → Type 0
  Same v = Steady a w v

  load_meta-same :
      (v : World)
      → let v' = (load_meta env a v).1 in
        (v'.id_cache ≡ v.id_cache)
        × (v'.path_cache ≡ v.path_cache)
        × (v'.next_loader ≡ v.next_loader)
        × ((v'.loaders a).path ≡ (v.loaders a).path)
  unfolding load_meta
  load_meta-same v = ground arith

  load_meta-id :
      (v : World) (x : String)
      → id_of (v.loaders a).meta ≡ some x
      → id_of ((load_meta env a v).1.loaders a).meta ≡ some x
  unfolding load_meta
  load_meta-id v x e = elim (Option-cases (v.loaders a).meta) [
    | inl nothing ↦ cc
    | inr (old, present) ↦
        elim (Result-cases (read_meta env (content_of env (v.loaders a).path v))) [
          | inl (meta, e₂) ↦ ground (arith, eq_iff meta.id old.id)
          | inr (x₂, e₂) ↦ ground arith
        ]
  ]

  load_meta-others : (v : World) (b : ℕ) → b ≢ a → (load_meta env a v).1.loaders b ≡ v.loaders b
  unfolding load_meta
  load_meta-others v b ne = ground arith

  pub load_meta-Same : Leads Same Same (load_meta env a)
  load_meta-Same = record {
    at = λ v h.
        let (i, p, n, q) = load_meta-same v in
        record {
          ids = i ∙ h.ids;
          paths = p ∙ h.paths;
          next = n ∙ h.next;
          path = q ∙ h.path;
          id = λ x e. load_meta-id v x (h.id x e);
          others = λ b ne. load_meta-others v b ne ∙ h.others b ne;
        };
  }

  pub get_importer-Same : (reset : Bool) → Leads Same Same (get_importer env a reset)
  unfolding get_importer
  get_importer-Same reset = record {
    at = λ v h. record {
      ids = ground (arith, h.ids);
      paths = ground (arith, h.paths);
      next = ground (arith, h.next);
      path = ground (arith, h.path);
      id = λ x e. ground (arith, h.id x e);
      others = λ b ne. ground (arith, h.others b ne);
    };
  }

  -- Steps that only ask leave the loaders and their caches alone.
  abbrev Asks : World → World → Type 0
  Asks v v' =
      (v'.loaders ≡ v.loaders)
      × (v'.id_cache ≡ v.id_cache)
      × (v'.path_cache ≡ v.path_cache)
      × (v'.next_loader ≡ v.next_loader)

  pub Asks-Same : (v v' : World) → Asks v v' → Same v → Same v'
  Asks-Same v v' (l, i, p, n) h = record {
    ids = i ∙ h.ids;
    paths = p ∙ h.paths;
    next = n ∙ h.next;
    path = rw l h.path;
    id = rw l h.id;
    others = rw l h.others;
  }

  find_modules-Asks :
      (path : String) (ms : List String) (v : World) → Asks v (find_modules env path ms v).1
  unfolding find_modules
  find_modules-Asks path [] v = (refl, refl, refl, refl)
  find_modules-Asks path (m ∷ ms) v =
      ground (arith, find_modules-Asks path ms (record v { trace = find_module m ∷ v.trace }))

  load_modules-Asks :
      (path : String) (ms : List String) (v : World) → Asks v (load_modules env path ms v).1
  unfolding load_modules
  load_modules-Asks path [] v = (refl, refl, refl, refl)
  load_modules-Asks path (m ∷ ms) v =
      ground (arith, load_modules-Asks path ms (record v { trace = load_module m ∷ v.trace }))

  pub run_preload_checks-Asks :
      (path : String) (v : World) → Asks v (run_preload_checks env a path v).1
  unfolding run_preload_checks
  run_preload_checks-Asks path v =
      let module_name = dots_to_slashes (default "" (v.loaders a).main_module) in
      let v₁ : World = record v { trace = get_code module_name ∷ v.trace } in
      elim (Option-cases (v.loaders a).meta) [
        | inl nothing ↦ ground arith
        | inr (meta, e) ↦ ground (arith, find_modules-Asks path meta.modules v₁)
      ]

  import_modules-Asks :
      (path : String) (meta : Option PluginMeta) (v : World)
      → Asks v (import_modules env path meta v).1
  import_modules-Asks path none v = (refl, refl, refl, refl)
  import_modules-Asks path (some meta) v = load_modules-Asks path meta.modules v

  import_main-Same : (path : String) → Leads Same Same (import_main env a path)
  unfolding import_main
  import_main-Same path = record {
    at = λ v h. record {
      ids = ground (arith, h.ids);
      paths = ground (arith, h.paths);
      next = ground (arith, h.next);
      path = ground (arith, h.path);
      id = λ x e. ground (arith, h.id x e);
      others = λ b ne. ground (arith, h.others b ne);
    };
  }

  load_again-Same : (reset : Bool) → Leads Same Same (load_again env a reset)
  unfolding load_again
  load_again-Same reset =
      Leads-bind (load_meta env a) _ (λ v h. h) load_meta-Same
        λ _.
          Leads-bind (get_importer env a reset) _ (λ v h. h) (get_importer-Same reset)
            λ path.
              Leads-bind (run_preload_checks env a path) _ (λ v h. h)
                (record {
                  at = λ v h.
                      Asks-Same v (run_preload_checks env a path v).1
                        (run_preload_checks-Asks path v) h;
                })
                λ _.
                  Leads-bind (loader_at a)
                    (λ l. import_modules env path l.meta >> import_main env a path) (λ v h. h)
                    (record { at = λ v h. h })
                    λ l.
                      Leads-bind (import_modules env path l.meta) _ (λ v h. h)
                        (record {
                          at = λ v h.
                              Asks-Same v (import_modules env path l.meta v).1
                                (import_modules-Asks path l.meta v) h;
                        })
                        λ _. import_main-Same path

  pub Same-refl : Same w
  Same-refl = record {
    ids = refl;
    paths = refl;
    next = refl;
    path = refl;
    id = λ x e. e;
    others = λ b ne. refl;
  }

  pub load-Same : (reset : Bool) → Same (load env a reset w).1
  unfolding load
  load-Same reset = elim (Option-cases (w.loaders a).loaded) [
    | inl nothing ↦ rw nothing ((load_again-Same reset).at w Same-refl)
    | inr (plugin, there) ↦ rw there (elim (Bool-cases reset) [
      | inl again ↦ rw again ((load_again-Same true).at w Same-refl)
      | inr plain ↦ rw plain Same-refl
    ])
  ]
