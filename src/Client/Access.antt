-- ===== src/Client/Access.antt =====
-- `update_access_details`: what a refusal leaves alone, and what the switch to new credentials
-- changes.
use maubot.Base.{
  ℕ, ◌≡◌, ◌≢◌, String, true, false, ◌&&◌, Option, some, [], arith, ◌||◌, eq_iff, truthy, opt_eq,
}
use maubot.Base.Exec.{ok, err, mxid_mismatch}
use maubot.World.{World, MatrixClient}
use maubot.World.Env.{Env, WhoAmI}
use maubot.Client.{make_client, enable_crypto}
use maubot.Client.Update.{update_access_details}

module _ (env : Env) (a : ℕ) (token homeserver : Option String) (device : String) (w : World)
    (given : (truthy token || truthy homeserver) ≡ true)
    (changed : (opt_eq token (w.clients a).access_token
        && opt_eq homeserver (w.clients a).homeserver
        && opt_eq (some device) (w.clients a).device_id)
      ≡ false) where
  abbrev new_client : MatrixClient
  new_client = make_client env (w.clients a) homeserver token (some device)

  -- `update_access_details` with a device id, and with a token or a homeserver of which something is
  -- new, raises the mismatch where `whoami` names another user, and then no client and no row is
  -- changed.
  access_refused :
      (who : WhoAmI)
      → env.whoami new_client w.trace ≡ ok who
      → who.user_id ≢ (w.clients a).id
      → let (r, w') = update_access_details env a token homeserver (some device) w in
        (r ≡ err (mxid_mismatch who.user_id))
        × (w'.clients ≡ w.clients)
        × (w'.client_table ≡ w.client_table)
  unfolding update_access_details
  access_refused who answer other = ground (arith, eq_iff who.user_id (w.clients a).id)

  -- `update_access_details` with a device id that `whoami` confirms, for a client without encryption:
  -- the token and the homeserver of the client become what was given, also where that is `None`; the
  -- new Matrix client keeps the event handlers, has no middleware and the default presence; and the
  -- table is not changed.
  access_switched :
      (who : WhoAmI)
      → env.whoami new_client w.trace ≡ ok who
      → who.user_id ≡ (w.clients a).id
      → who.device_id ≡ some device
      → env.has_olm ≡ false
      → (w.clients a).crypto ≡ false
      → let (r, w') = update_access_details env a token homeserver (some device) w in
        let c = w'.clients a in
        (r ≡ ok tt)
        × (c.access_token ≡ token)
        × (c.homeserver ≡ homeserver)
        × (c.device_id ≡ some device)
        × (c.client.event_handlers ≡ (w.clients a).client.event_handlers)
        × (c.client.event_middleware ≡ [])
        × (c.client.presence_online ≡ env.default_presence)
        × (w'.client_table ≡ w.client_table)
  unfolding update_access_details make_client enable_crypto
  access_switched who answer same device_same olm plain =
      ground (arith, eq_iff who.user_id (w.clients a).id, eq_iff device device)
