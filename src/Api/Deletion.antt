-- ===== src/Api/Deletion.antt =====
-- Clients and plugins that plugin instances use cannot be deleted through the API.
use maubot.Base.{
  ap, is_some, if◌then◌else◌, ℕ, ◌≡◌, ◌≢◌, refl, String, true, false, none, some, List, [], ◌∷◌,
  arith, eq_refl, is_empty, inl, inr, ◌⊎◌, Bool-cases,
}
use maubot.Base.Dict.{update, lookup, erase, lookup-erase}
use maubot.Base.Exec.{ok}
use maubot.World.{remove_cache, Call, World, PluginMeta}
use maubot.World.Access.{set_client}
use maubot.Loader.Trashing.{trash_gone}
use maubot.Base.{default}
use maubot.World.Env.{Env}
use maubot.Client
use maubot.Client.Lifecycle.{stop_plugins, stop}
use maubot.World.Gather.{gather, select}
use maubot.Loader
use maubot.Loader.Caches.{unload-total, unload-loader}
use maubot.Api.Responses
use maubot.Api.Clients.{delete_client}
use maubot.Api.Plugins.{delete_plugin}

module _ (env : Env) (id : String) (a : ℕ) (w : World) where
  -- A client of the cache that instances refer to.
  delete_client-in_use :
      lookup id w.client_cache ≡ some a
      → is_empty (w.clients a).references ≡ false
      → delete_client env id w ≡ (ok Responses.client_in_use, w)
  unfolding delete_client Client.get
  delete_client-in_use hit used = ground arith

  delete_plugin-in_use :
      lookup id w.id_cache ≡ some a
      → is_empty (w.loaders a).references ≡ false
      → delete_plugin env id w ≡ (ok Responses.plugin_in_use, w)
  unfolding delete_plugin
  delete_plugin-in_use hit used = ground arith

empty_list : {A : Type 0} (xs : List A) → is_empty xs ≡ true → xs ≡ []
empty_list [] h = refl
empty_list (x ∷ xs) h = cc

stop_plugins_unused :
    (env : Env) (a : ℕ) (w : World)
    → is_empty (w.clients a).references ≡ true
    → stop_plugins env a w ≡ (ok tt, w)
unfolding stop_plugins gather select
stop_plugins_unused env a w unused = rw (empty_list (w.clients a).references unused) refl

module _ (env : Env) (closes : (t : List Call) → env.crypto_close t ≡ ok tt) where
  -- Without instances, stopping a client only marks it.
  stop_unused :
      (a : ℕ) (w : World)
      → is_empty (w.clients a).references ≡ true
      → let w' = (stop env a w).1 in
        ((stop env a w).0 ≡ ok tt)
        × ((w'.clients a).id ≡ (w.clients a).id)
        × (w'.client_cache ≡ w.client_cache)
        × (w'.client_table ≡ w.client_table)
  unfolding stop
  stop_unused a w unused =
      let w₁ : World = set_client a (record (w.clients a) { started = false }) w in
      ground (arith, stop_plugins_unused env a w₁, closes w.trace)

  module _ (id : String) (a : ℕ) (w : World) (hit : lookup id w.client_cache ≡ some a)
      (own : (w.clients a).id ≡ id) where
    delete_client-unused :
        is_empty (w.clients a).references ≡ true
        → let (r, w') = delete_client env id w in
          (r ≡ ok Responses.deleted)
          × (lookup id w'.client_cache ≡ none)
          × (lookup id w'.client_table ≡ none)
    unfolding delete_client Client.get Client.delete
    delete_client-unused unused = ground (
      arith,
      stop_unused a w unused,
      lookup-erase id id w.client_cache,
      lookup-erase id id w.client_table,
      eq_refl id,
    )

module _ (env : Env) (id path : String) (a : ℕ) (w : World) (meta : PluginMeta)
    (hit : lookup id w.id_cache ≡ some a) (read : (w.loaders a).meta ≡ some meta)
    (own : meta.id ≡ id) (from : (w.loaders a).path ≡ some path) where
  forget_gone :
      (v : World)
      → (v.loaders a).meta ≡ some meta
      → (v.loaders a).path ≡ some path
      → ((t : List Call) → env.trash_name path "delete" t ≢ path)
      → ((t : List Call) → env.remove_works path t ≡ true)
      → let v' = (Loader.forget env a v).1 in
        ((Loader.forget env a v).0 ≡ ok tt)
        × (v'.id_cache ≡ erase id v.id_cache)
        × (v'.path_cache ≡ erase path v.path_cache)
        × (lookup path v'.files ≡ none)
  unfolding Loader.forget
  forget_gone v has_meta has_path moved removable =
      let importer = (v.loaders a).importer in
      let v₁ : World = record v {
        path_cache = erase path v.path_cache;
        id_cache = erase meta.id v.id_cache;
        loaders = update v.loaders a (record (v.loaders a) { importer = none; loaded = none });
        trace = if is_some importer then remove_cache (default "" importer) ∷ v.trace else v.trace;
      } in
      ground (arith, trash_gone env path "delete" v₁ (moved v₁.trace) removable)

  delete_plugin-unused :
      is_empty (w.loaders a).references ≡ true
      → ((t : List Call) → env.trash_name path "delete" t ≢ path)
      → ((t : List Call) → env.remove_works path t ≡ true)
      → let (r, w') = delete_plugin env id w in
        (r ≡ ok Responses.deleted)
        × (lookup id w'.id_cache ≡ none)
        × (lookup path w'.path_cache ≡ none)
        × (lookup path w'.files ≡ none)
  unfolding delete_plugin Loader.delete
  delete_plugin-unused unused moved removable =
      let v : World = (Loader.unload env a w).1 in
      let has_meta : (v.loaders a).meta ≡ some meta = ground (arith, unload-loader env a w) in
      let has_path : (v.loaders a).path ≡ some path = ground (arith, unload-loader env a w) in
      ground (
        arith,
        unload-total env a w (ap is_some read),
        forget_gone v has_meta has_path moved removable,
        lookup-erase id id v.id_cache,
        lookup-erase path path v.path_cache,
        eq_refl id,
        eq_refl path,
      )

-- A client that instances refer to is not deleted: the answer says that it is in use and nothing
-- changes. Any other client is deleted: neither the cache nor the table has its id afterwards. This
-- is for a client that the cache has under its id, where closing the encryption store does not fail.
pub delete_client_outcome :
    (env : Env) (id : String) (a : ℕ) (w : World)
    → ((t : List Call) → env.crypto_close t ≡ ok tt)
    → lookup id w.client_cache ≡ some a
    → (w.clients a).id ≡ id
    → let (r, w') = delete_client env id w in
      ((is_empty (w.clients a).references ≡ false) × (r ≡ ok Responses.client_in_use) × (w' ≡ w))
      ⊎ ((is_empty (w.clients a).references ≡ true)
          × (r ≡ ok Responses.deleted)
          × (lookup id w'.client_cache ≡ none)
          × (lookup id w'.client_table ≡ none))
delete_client_outcome env id a w closes hit own =
    elim (Bool-cases (is_empty (w.clients a).references)) [
      | inl unused ↦
          let (answer, cached, stored) = delete_client-unused env closes id a w hit own unused in
          inr (unused, answer, cached, stored)
      | inr used ↦
          let e = delete_client-in_use env id a w hit used in
          inl (used, ap (λ p. p.0) e, ap (λ p. p.1) e)
    ]

-- A plugin that instances refer to is not deleted: the answer says that it is in use and nothing
-- changes. Any other plugin is deleted: the caches have neither its id nor its path, and its file is
-- gone from this path. This is for a loader that the cache has under the id that its definition
-- has, where the trash does not keep the file at its path, and the file can be removed if it cannot
-- be moved.
pub delete_plugin_outcome :
    (env : Env) (id path : String) (a : ℕ) (w : World) (meta : PluginMeta)
    → lookup id w.id_cache ≡ some a
    → (w.loaders a).meta ≡ some meta
    → meta.id ≡ id
    → (w.loaders a).path ≡ some path
    → ((t : List Call) → env.trash_name path "delete" t ≢ path)
    → ((t : List Call) → env.remove_works path t ≡ true)
    → let (r, w') = delete_plugin env id w in
      ((is_empty (w.loaders a).references ≡ false) × (r ≡ ok Responses.plugin_in_use) × (w' ≡ w))
      ⊎ ((is_empty (w.loaders a).references ≡ true)
          × (r ≡ ok Responses.deleted)
          × (lookup id w'.id_cache ≡ none)
          × (lookup path w'.path_cache ≡ none)
          × (lookup path w'.files ≡ none))
delete_plugin_outcome env id path a w meta hit read own from moved removable =
    elim (Bool-cases (is_empty (w.loaders a).references)) [
      | inl unused ↦
          let (answer, id_gone, path_gone, file_gone) =
            delete_plugin-unused env id path a w meta hit read own from unused moved removable in
          inr (unused, answer, id_gone, path_gone, file_gone)
      | inr used ↦
          let e = delete_plugin-in_use env id a w hit used in
          inl (used, ap (λ p. p.0) e, ap (λ p. p.1) e)
    ]
