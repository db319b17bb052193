-- ===== src/Client.antt =====
-- maubot/client.py: the objects of `class Client`, their creation and lookup, the Matrix client
-- and encryption of each. Starting and stopping is in Client/Lifecycle, the `update_*` methods
-- in Client/Update.
pub mod Lifecycle
pub mod Update
pub mod Failures
pub mod Settings
pub mod Events
pub mod Lookup
pub mod Access
pub mod Stopping
pub mod Retries
pub mod Every
use maubot.Base.{
  ⊤, ℕ, ◌+◌, String, Bool, true, false, ◌&&◌, not, Option, none, some, List, [], ◌∷◌, ◌++◌, ◌==◌,
  if◌then◌else◌, truthy, or_else, opt_eq, is_some, default,
}
use maubot.Base.Dict.{lookup, insert, erase, update, contains}
use maubot.Base.Exec.{
  Exec, Result, ok, err, runtime_error, pure, raise, gets, attempt, modify, skip, when, ◌>>=◌, ◌>>◌,
}
use maubot.World.{World, Client, ClientRow, MatrixClient, Handler, Call}
use maubot.World.{invite, tombstone, sync_errored, sync_successful}
use maubot.World.{otk_count, device_lists, to_device_encrypted, room_key_request, crypto_member}
use maubot.World.{crypto_open, crypto_delete, crypto_load, crypto_device, share_keys, resolve_trust}
use maubot.World.{put_device_id, get_profile, set_displayname, set_avatar_url, start_client}
use maubot.World.Env.{Env, ask}
use maubot.World.Access.{set_client, save_client}

-- A write to the object at an address.
abbrev pub modify_client : ℕ → (Client → Client) → Exec World ⊤
modify_client a f = modify (λ w. set_client a (f (w.clients a)) w)

abbrev pub client_at : ℕ → Exec World Client
client_at a = gets (λ w. w.clients a)

-- `await self.update()`
abbrev pub save : ℕ → Exec World ⊤
save a = modify (save_client a)

abbrev pub modify_matrix : ℕ → (MatrixClient → MatrixClient) → Exec World ⊤
modify_matrix a f = modify_client a (λ c. record c { client = f c.client })

module _ (env : Env) where
  unfoldable pub make_client : Client → Option String → Option String → Option String → MatrixClient
  make_client c homeserver token device_id = record {
    base_url = or_else homeserver c.homeserver;
    token = or_else token c.access_token;
    device_id = or_else device_id c.device_id;
    event_handlers = [];
    event_middleware = [];
    presence_online = env.default_presence;
    ignore_initial_sync = false;
    ignore_first_sync = false;
    syncing = false;
    has_crypto = false;
  }

  unfoldable pub enable_crypto : Client → Bool
  enable_crypto c =
      if not (truthy c.device_id)
      then false
      else if not env.has_olm
      then false
      else if not env.has_crypto_db
      then false
      else true

  -- `OlmMachine` registers its own handlers with the Matrix client.
  unfoldable pub prepare_crypto : Client → Client
  prepare_crypto c = record c {
    crypto = true;
    client = record (c.client) {
      has_crypto = true;
      event_handlers = c.client.event_handlers ++ env.olm_handlers;
    };
  }

  -- `add_event_handler`, `add_event_middleware` of the handlers that maubot has for every client
  abbrev own_handlers : Client → List Handler
  own_handlers c = (if c.autojoin then invite ∷ [] else []) ++ (sync_errored ∷ sync_successful ∷ [])

  abbrev fresh_state : Client → Client
  fresh_state c = record c {
    postinited = true;
    references = [];
    started = false;
    sync_ok = true;
    trust_state = none;
    remote_displayname = none;
    remote_avatar_url = none;
    client = make_client c none none none;
    crypto = false;
  }

  abbrev with_crypto : Client → Client
  with_crypto c = if enable_crypto c then prepare_crypto c else c

  abbrev with_handlers : Client → Client
  with_handlers c = record c {
    client = record (c.client) {
      ignore_initial_sync = true;
      ignore_first_sync = true;
      presence_online = c.online;
      event_handlers = c.client.event_handlers ++ own_handlers c;
      event_middleware = c.client.event_middleware ++ tombstone ∷ [];
    };
  }

  unfoldable pub postinit : ℕ → Exec World ⊤
  unfolding make_client enable_crypto prepare_crypto
  postinit a = do
    c ← client_at a
    if c.postinited then raise runtime_error else do
      modify (λ w. record w { client_cache = insert c.id a w.client_cache })
      modify_client a (λ o. with_handlers (with_crypto (fresh_state o)))

  -- `cls(…)`: an object that `postinit` has not seen has no runtime fields yet.
  abbrev new_object : ClientRow → Client
  new_object r = record {
    row = r;
    postinited = false;
    references = [];
    client = record {
      base_url = none;
      token = none;
      device_id = none;
      event_handlers = [];
      event_middleware = [];
      presence_online = false;
      ignore_initial_sync = false;
      ignore_first_sync = false;
      syncing = false;
      has_crypto = false;
    };
    crypto = false;
    started = false;
    sync_ok = false;
    remote_displayname = none;
    remote_avatar_url = none;
    trust_state = none;
  }

  abbrev allocate : ClientRow → Exec World ℕ
  allocate r w = (
    ok w.next_client,
    record w {
      clients = update w.clients w.next_client (new_object r);
      next_client = w.next_client + 1;
    },
  )

  abbrev new_row : String → Option String → Option String → Option String → ClientRow
  new_row user_id homeserver access_token device_id = record {
    id = user_id;
    homeserver = homeserver;
    access_token = access_token;
    device_id = some (default "" device_id);
    enabled = false;
    next_batch = "";
    filter_id = "";
    sync = true;
    autojoin = true;
    online = true;
    displayname = "disable";
    avatar_url = "disable";
  }

  -- What `get` does on a cache miss, by what the table holds.
  from_table :
      String
      → Option String
      → Option String
      → Option String
      → Option ClientRow
      → Exec World (Option ℕ)
  from_table user_id homeserver access_token device_id (some r) = do
    a ← allocate r
    postinit a
    pure (some a)
  from_table user_id homeserver access_token device_id none =
      if truthy homeserver && truthy access_token
      then (do
        a ← allocate (new_row user_id homeserver access_token device_id)
        modify (λ w. record w { client_table = insert user_id (w.clients a).row w.client_table })
        postinit a
        pure (some a))
      else pure none

  from_cache :
      String → Option String → Option String → Option String → Option ℕ → Exec World (Option ℕ)
  unfolding from_table
  from_cache user_id homeserver access_token device_id (some a) = pure (some a)
  from_cache user_id homeserver access_token device_id none = do
    row ← gets (λ w. lookup user_id w.client_table)
    from_table user_id homeserver access_token device_id row

  -- `Client.get(user_id, homeserver=…, access_token=…, device_id=…)`
  unfoldable pub get :
      String → Option String → Option String → Option String → Exec World (Option ℕ)
  unfolding from_cache
  get user_id homeserver access_token device_id = do
    hit ← gets (λ w. lookup user_id w.client_cache)
    from_cache user_id homeserver access_token device_id hit

  -- `Client.delete`
  unfoldable pub delete : ℕ → Exec World ⊤
  delete a = do
    c ← client_at a
    modify (λ w. record w { client_cache = erase c.id w.client_cache })
    modify (λ w. record w { client_table = erase c.id w.client_table })

  -- `_start_crypto`
  crypto_device_id : ℕ → Option String → Exec World (Option String)
  crypto_device_id a stored = do
    c ← client_at a
    if truthy stored && not (opt_eq stored c.device_id)
        then (do ask crypto_delete env.crypto_delete; pure none)
        else pure stored

  unfoldable pub start_crypto : ℕ → Exec World ⊤
  unfolding crypto_device_id
  start_crypto a = do
    ask crypto_open env.crypto_open
    stored ← ask crypto_device env.crypto_device
    kept ← crypto_device_id a stored
    shared ← ask crypto_load env.crypto_load
    c ← client_at a
    when (not (truthy kept)) (ask (put_device_id c.device_id) env.put_device_id)
    when (not shared) (ask share_keys env.share_keys)
    trust ← ask resolve_trust env.resolve_trust
    modify_client a (λ o. record o { trust_state = trust })

  abbrev set_profile : ℕ → Result (Option String × Option String) → Exec World ⊤
  set_profile a (ok (name, avatar)) =
      modify_client a (λ o. record o { remote_displayname = name; remote_avatar_url = avatar })
  set_profile a (err e) = skip

  -- `_update_remote_profile`: a failure is logged and otherwise ignored.
  unfoldable pub update_remote_profile : ℕ → Exec World ⊤
  update_remote_profile a = do
    c ← client_at a
    r ← attempt (ask get_profile (env.get_profile c.client))
    set_profile a r

-- `start_sync`, `stop_sync`
abbrev pub start_sync : ℕ → Exec World ⊤
start_sync a = do c ← client_at a; when c.sync (modify_matrix a (λ m. record m { syncing = true }))

abbrev pub stop_sync : ℕ → Exec World ⊤
stop_sync a = modify_matrix a (λ m. record m { syncing = false })

-- `clear_cache`
unfoldable pub clear_cache : ℕ → Exec World ⊤
clear_cache a = do
  stop_sync a
  modify_client a (λ c. record c { row = record (c.row) { filter_id = ""; next_batch = "" } })
  save a
  start_sync a
