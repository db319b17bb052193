-- ===== src/Instance/Links.antt =====
-- The sets of references: an instance that is loaded stands in the set of its loader and in that
-- of its client; an instance that left no trace in them cannot be deleted.
use maubot.Base.{false, none, is_some_value, String, ℕ, ◌≡◌, true, some, arith, is_some}
use maubot.Base.Exec.{key_error, err, ok}
use maubot.World.{World, Instance}
use maubot.World.Env.{Env}
use maubot.World.Refs.{holds, remove, has, has-add, add, RefSet}
use maubot.World.Access.{equal_to, equal_to_self}
use maubot.Client
use maubot.Base.Dict.{lookup}
use maubot.Instance.{update_enabled, find_client, load, link, find_loader, enable_webapp}
use maubot.Instance.Stores.{delete}
use maubot.Server.{get_instance_subapp}

-- The sets of the client and the loader that the instance names have it, or an object that is equal
-- to it, which is the same to a `set`.
abbrev pub IsLinked : ℕ → World → Type 0
IsLinked a w =
    (c l : ℕ) × ((w.instances a).client ≡ some c)
    × ((w.instances a).loader ≡ some l)
    × (has (equal_to a w.instances) (w.clients c).references ≡ true)
    × (has (equal_to a w.instances) (w.loaders l).references ≡ true)

module _ (env : Env) (a : ℕ) where
  added :
      (h : ℕ) (objects : ℕ → Instance) (refs : RefSet)
      → has (equal_to a objects) (add h a (equal_to a objects) refs) ≡ true
  added h objects refs = has-add h a (equal_to a objects) refs (equal_to_self a objects)

  enable_webapp_frame :
      (w : World)
      → let w' = (enable_webapp env a w).1 in
        ((w'.instances a).client ≡ (w.instances a).client)
        × ((w'.instances a).loader ≡ (w.instances a).loader)
        × ((enable_webapp env a w).0 ≡ ok tt)
  unfolding enable_webapp get_instance_subapp
  enable_webapp_frame w = ground arith

  link-IsLinked :
      (c l : ℕ) (w : World)
      → (w.instances a).client ≡ some c
      → (w.instances a).loader ≡ some l
      → (link env a w).0 ≡ ok tt
      → IsLinked a (link env a w).1
  unfolding link
  link-IsLinked c l w hc hl done = (
    c,
    l,
    ground (arith, enable_webapp_frame w),
    ground (arith, enable_webapp_frame w),
    grind (arith, added, enable_webapp_frame w),
    grind (arith, added, enable_webapp_frame w),
  )

  find_loader_found :
      (w : World)
      → (find_loader env a w).0 ≡ ok true
      → is_some ((find_loader env a w).1.instances a).loader ≡ true
  unfolding find_loader
  find_loader_found w e = ground arith

  get-instances :
      (user : String) (w : World) → (Client.get env user none none none w).1.instances ≡ w.instances
  unfolding Client.get Client.postinit
  get-instances user w = ground arith

  find_client_found :
      (w : World)
      → (find_client env a w).0 ≡ ok true
      → let w' = (find_client env a w).1 in
        (is_some (w'.instances a).client ≡ true)
        × ((w'.instances a).loader ≡ (w.instances a).loader)
  unfolding find_client
  find_client_found w e = ground (arith, get-instances (w.instances a).primary_user w)

  pub link_both-IsLinked :
      (w : World)
      → is_some (w.instances a).client ≡ true
      → is_some (w.instances a).loader ≡ true
      → (link env a w).0 ≡ ok tt
      → IsLinked a (link env a w).1
  link_both-IsLinked w hc hl done =
      let (c, ec) = is_some_value (w.instances a).client hc in
      let (l, el) = is_some_value (w.instances a).loader hl in link-IsLinked c l w ec el done

  load_steps :
      (w : World)
      → (load env a w).0 ≡ ok true
      → let w₁ = (find_loader env a w).1 in
        let w₂ = (find_client env a w₁).1 in
        ((find_loader env a w).0 ≡ ok true)
        × ((find_client env a w₁).0 ≡ ok true)
        × ((link env a w₂).0 ≡ ok tt)
        × ((load env a w).1 ≡ (link env a w₂).1)
  unfolding load
  load_steps w done = ground arith

  pub load-IsLinked : (w : World) → (load env a w).0 ≡ ok true → IsLinked a (load env a w).1
  load-IsLinked w done =
      let w₁ : World = (find_loader env a w).1 in
      let w₂ : World = (find_client env a w₁).1 in
      let (found, user, linked, same) = load_steps w done in
      let (has_client, kept) = find_client_found w₁ user in
      rw same (link_both-IsLinked w₂ has_client (rw kept (find_loader_found w found)) linked)

  pub delete-unlisted :
      (l : ℕ) (w : World)
      → (w.instances a).loader ≡ some l
      → holds (env.hash (w.instances a).id) (equal_to a w.instances) (w.loaders l).references
        ≡ false
      → delete env a w ≡ (err key_error, w)
  unfolding delete remove
  delete-unlisted l w hl absent = ground arith

  -- No object and no row of this user.
  abbrev pub IsUnknown : String → World → Type 0
  IsUnknown user w = (lookup user w.client_cache ≡ none) × (lookup user w.client_table ≡ none)

  module _ (l : ℕ) (w : World) (no_client : (w.instances a).client ≡ none)
      (no_loader : (w.instances a).loader ≡ none)
      (known : lookup (w.instances a).type w.id_cache ≡ some l)
      (unknown : IsUnknown (w.instances a).primary_user w) where
    load-half :
        let w₁ = (load env a w).1 in
        ((load env a w).0 ≡ ok false)
        × ((w₁.instances a).loader ≡ some l)
        × ((w₁.instances a).id ≡ (w.instances a).id)
        × (w₁.loaders ≡ w.loaders)
    unfolding load find_loader find_client update_enabled Client.get
    load-half = ground arith

    -- Where the plugin of an instance is known, its user is not, and the instance has neither loader nor
    -- client, `load` returns false; where the loader's set then has neither the instance nor one that is
    -- equal to it, `delete` raises KeyError and changes nothing: such an instance cannot be deleted.
    pub delete_stuck :
        holds
            (env.hash (w.instances a).id)
            (equal_to a (load env a w).1.instances)
            (w.loaders l).references
          ≡ false
        → let w₁ = (load env a w).1 in
          ((load env a w).0 ≡ ok false) × (delete env a w₁ ≡ (err key_error, w₁))
    delete_stuck absent =
        let (half, loader, id, same) = load-half in
        (half, delete-unlisted l (load env a w).1 loader (rw (id, same) absent))

  -- None of the steps of `load` starts or stops the instance.
  module _ (w : World) where
    find_loader-started : ((find_loader env a w).1.instances a).started ≡ (w.instances a).started
    unfolding find_loader update_enabled
    find_loader-started = ground arith

    find_client-started : ((find_client env a w).1.instances a).started ≡ (w.instances a).started
    unfolding find_client update_enabled
    find_client-started = ground (arith, get-instances (w.instances a).primary_user w)

    link-started : ((link env a w).1.instances a).started ≡ (w.instances a).started
    unfolding link enable_webapp get_instance_subapp
    link-started = ground arith

  pub load-started : (w : World) → ((load env a w).1.instances a).started ≡ (w.instances a).started
  unfolding load
  load-started w =
      let w₁ : World = (find_loader env a w).1 in
      let w₂ : World = (find_client env a w₁).1 in
      ground (arith, find_loader-started w, find_client-started w₁, link-started w₂)
