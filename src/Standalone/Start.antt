-- ===== src/Standalone/Start.antt =====
-- maubot/standalone/__main__.py: main, from the database to the plugin's internal_start.
use maubot.Base.{
  ⊤, ℕ, ◌+◌, String, ◌==◌, true, false, not, ◌&&◌, Option, some, List, if◌then◌else◌, truthy,
  opt_eq, zero, suc,
}
use maubot.World.{DatabaseType}
use maubot.World.Env.{WhoAmI}
use maubot.Standalone.{
  Failure, Outcome, Answer, gives, fails, lift, done, raised, exits, waiting, Call, Settings,
  Machine, Main, ◌>>=◌, ◌>>◌, exit, modify, gets, give, when, call,
}

module _ (c : Settings) (m : Machine) where
  abbrev ask : {A : Type 0} → (List Call → Answer A) → Main A
  ask answer s = (lift (answer s.trace), s)

  -- `if crypto_device_id and crypto_device_id != device_id: sys.exit(10)`
  unfoldable pub check_store : Option String → Main ⊤
  check_store stored = do
    when (truthy stored && not (opt_eq stored c.device_id)) (exit 10)
    call m Call.load_crypto
    when (not (truthy stored)) (call m Call.put_device)

  -- `if crypto_store:`
  unfoldable pub set_up_crypto : Main ⊤
  unfolding check_store
  set_up_crypto = do
    call m Call.upgrade_store
    call m Call.upgrade_store
    call m Call.open_store
    modify (λ s. record s { has_crypto = true })
    stored ← ask m.crypto_device
    check_store stored

  unfoldable pub set_up_web : Main ⊤
  set_up_web = do
    call m Call.web_setup
    modify (λ s. record s { web = true })
    call m Call.web_start

  -- main up to the loop
  unfoldable pub prepare : Main ⊤
  unfolding set_up_crypto set_up_web
  prepare = do
    call m Call.db_start
    modify (λ s. record s { db_open = true })
    filter_id ← ask m.stored_filter
    modify (λ s. record s { client = some false; filter_id = filter_id })
    when c.crypto_store set_up_crypto
    when c.web_runner set_up_web

  -- What the answer to whoami leads to.
  unfoldable pub verdict : WhoAmI → Outcome ⊤
  verdict who =
      if not (who.user_id == c.id)
      then exits 11
      else if truthy who.device_id && truthy c.device_id && not (opt_eq who.device_id c.device_id)
      then exits 12
      else done tt

  -- One round: the answer ends the loop, or the loop goes on behind an Exception.
  unfoldable pub after_answer : Answer WhoAmI → Main ⊤ → Main ⊤
  unfolding verdict
  after_answer (gives who) again = give (verdict who)
  after_answer (fails Failure.interrupt) again = give (raised Failure.interrupt)
  after_answer (fails e) again = again

  -- `while True:`, from the try `n` on and for as many tries as there is fuel.
  unfoldable pub connect : ℕ → ℕ → Main ⊤
  unfolding after_answer call
  connect zero n = give waiting
  connect (suc fuel) n = after_answer (m.whoami n) (call m Call.sleep >> connect fuel (n + 1))

  unfoldable pub make_filter : Main ⊤
  make_filter = do
    filter_id ← ask m.create_filter
    modify (λ s. record s { filter_id = filter_id })
    call m Call.put_filter_id

  unfoldable pub start_syncing : Main ⊤
  unfolding make_filter
  start_syncing = do
    filter_id ← gets (λ s. s.filter_id)
    when (filter_id == "") make_filter
    modify (λ s. record s { client = some true })

  -- `if config["user.sync"]: … elif …: share_keys()`
  unfoldable pub sync_or_share : Main ⊤
  unfolding start_syncing
  sync_or_share = if c.sync then start_syncing else (do
    trace ← gets (λ s. s.trace)
    when (c.appservice && c.crypto_store && not (m.shared trace)) (call m Call.share_keys))

  unfoldable pub set_profile : Main ⊤
  set_profile = do
    when (not (c.avatar_url == "disable")) (call m Call.set_avatar_url)
    when (not (c.displayname == "disable")) (call m Call.set_displayname)

  -- `if meta.database:`
  unfoldable pub open_database : DatabaseType → Main ⊤
  open_database DatabaseType.sqlalchemy = call m Call.create_engine
  open_database DatabaseType.asyncpg = when c.has_upgrade_table (call m Call.upgrade_plugin_db)
  open_database (DatabaseType.extension name) = exit 13

  -- The rest of main: the plugin's object and its start.
  unfoldable pub start_plugin : Main ⊤
  start_plugin = do
    call m Call.new_plugin
    modify (λ s. record s { bot = some false })
    call m Call.internal_start
    modify (λ s. record s { bot = some true })

  unfoldable pub finish : Main ⊤
  unfolding sync_or_share set_profile open_database start_plugin
  finish = do
    sync_or_share
    when c.autojoin (modify (λ s. record s { autojoins = true }))
    set_profile
    when c.database (open_database c.database_type)
    start_plugin

  -- main up to the confirmed connection
  unfoldable pub reach_server : ℕ → Main ⊤
  unfolding prepare connect
  reach_server fuel = do prepare; connect fuel 0

  unfoldable pub main : ℕ → Main ⊤
  unfolding reach_server finish
  main fuel = do reach_server fuel; finish
