-- ===== src/Loader/Frame.antt =====
-- Loading a plugin touches its loader and the caches of loaders, and neither the instances, the
-- clients nor their tables.
use maubot.Base.{true, ℕ, ◌≡◌, String, Bool, List, [], ◌∷◌, arith, Option, none, some}
use maubot.Base.{inl, inr, Option-cases, default}
use maubot.Base.Exec.{◌>>◌}
use maubot.Base.Rules.{Leads, Leads-bind}
use maubot.World.{get_code, PluginMeta}
use maubot.Base.Text.{dots_to_slashes}
use maubot.Loader.{loader_at, import_modules}
use maubot.World.{World, find_module, load_module}
use maubot.World.Env.{Env}
use maubot.Base.Text.{dots_to_slashes}
use maubot.Loader.{
  load_meta, get_importer, run_preload_checks, find_modules, load_modules, load_again, load,
  import_main,
}

-- The parts of the state that belong to clients and instances.
abbrev pub SameBots : World → World → Type 0
SameBots w v =
    (v.instances ≡ w.instances)
    × (v.clients ≡ w.clients)
    × (v.instance_table ≡ w.instance_table)
    × (v.client_table ≡ w.client_table)

module _ (env : Env) (w : World) where
  abbrev Kept : World → Type 0
  Kept = SameBots w

  module _ (v : World) (h : Kept v) where
    load_meta-Kept : (a : ℕ) → Kept (load_meta env a v).1
    unfolding load_meta
    load_meta-Kept a = ground arith

    get_importer-Kept : (a : ℕ) (reset : Bool) → Kept (get_importer env a reset v).1
    unfolding get_importer
    get_importer-Kept a reset = ground arith

    import_main-Kept : (a : ℕ) (path : String) → Kept (import_main env a path v).1
    unfolding import_main
    import_main-Kept a path = ground arith

  find_modules-Kept :
      (path : String) (ms : List String) (v : World) → Kept v → Kept (find_modules env path ms v).1
  unfolding find_modules
  find_modules-Kept path [] v h = h
  find_modules-Kept path (m ∷ ms) v h =
      ground (arith, find_modules-Kept path ms (record v { trace = find_module m ∷ v.trace }) h)

  load_modules-Kept :
      (path : String) (ms : List String) (v : World) → Kept v → Kept (load_modules env path ms v).1
  unfolding load_modules
  load_modules-Kept path [] v h = h
  load_modules-Kept path (m ∷ ms) v h =
      ground (arith, load_modules-Kept path ms (record v { trace = load_module m ∷ v.trace }) h)

  run_preload_checks-Kept :
      (a : ℕ) (path : String) (v : World) → Kept v → Kept (run_preload_checks env a path v).1
  unfolding run_preload_checks
  run_preload_checks-Kept a path v h =
      let module_name = dots_to_slashes (default "" (v.loaders a).main_module) in
      let v₁ : World = record v { trace = get_code module_name ∷ v.trace } in
      elim (Option-cases (v.loaders a).meta) [
        | inl nothing ↦ ground arith
        | inr (meta, e) ↦ ground (arith, find_modules-Kept path meta.modules v₁ h)
      ]

  import_modules-Kept :
      (path : String) (meta : Option PluginMeta) (v : World)
      → Kept v
      → Kept (import_modules env path meta v).1
  import_modules-Kept path none v h = h
  import_modules-Kept path (some meta) v h = load_modules-Kept path meta.modules v h

  load_again-Kept : (a : ℕ) (reset : Bool) → Leads Kept Kept (load_again env a reset)
  unfolding load_again
  load_again-Kept a reset =
      Leads-bind (load_meta env a) _ (λ v h. h) (record { at = λ v h. load_meta-Kept v h a })
        λ _.
          Leads-bind (get_importer env a reset) _ (λ v h. h)
            (record { at = λ v h. get_importer-Kept v h a reset })
            λ path.
              Leads-bind (run_preload_checks env a path) _ (λ v h. h)
                (record { at = run_preload_checks-Kept a path })
                λ _.
                  Leads-bind (loader_at a)
                    (λ l. import_modules env path l.meta >> import_main env a path) (λ v h. h)
                    (record { at = λ v h. h })
                    λ l.
                      Leads-bind (import_modules env path l.meta) _ (λ v h. h)
                        (record { at = import_modules-Kept path l.meta })
                        λ _. record { at = λ v h. import_main-Kept v h a path }

  pub load-Kept : (a : ℕ) (reset : Bool) (v : World) → Kept v → Kept (load env a reset v).1
  unfolding load
  load-Kept a reset v h =
      ground (arith, (load_again-Kept a true).at v h, (load_again-Kept a reset).at v h)
