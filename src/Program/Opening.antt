-- ===== src/Program/Opening.antt =====
-- Theorems on the databases of the program (maubot/__main__.py).
use maubot.Base.{Bool, Option, none, some, ◌≡◌, refl, arith}
use maubot.Program.{
  works, Scheme, PluginUrl, off, same, url, Config, Database, main, crypto, plugin, Pools, ready,
  crypto_of, pool_of, prepare_db, Call, Answer, done, Calls, start_db, stop_calls,
}
use maubot.Program.Counting.{
  db_eq, opened, closed, uses, uses-main, start_db-returns, opened-start_db, closed-stop_calls,
}

-- The plugins' database is their own or the main one, and a postgres database.
pub data IsPool (c : Config) (d : Option Database) : Type 0 where
  no_pool : c.plugin_postgres ≡ off → d ≡ none → IsPool c d
  shared : c.plugin_postgres ≡ same → c.database ≡ Scheme.postgres → d ≡ some main → IsPool c d
  separate : c.plugin_postgres ≡ url Scheme.postgres → d ≡ some plugin → IsPool c d

pool_of-IsPool :
    (c : Config) (u : PluginUrl) (s : Scheme) (d : Option Database)
    → c.plugin_postgres ≡ u
    → c.database ≡ s
    → pool_of u s ≡ ready d
    → IsPool c d
unfolding pool_of
pool_of-IsPool c off s d e f h = no_pool e (cc h)
pool_of-IsPool c same Scheme.postgres d e f h = shared e f (cc h)
pool_of-IsPool c same Scheme.sqlite d e f h = cc
pool_of-IsPool c (url Scheme.postgres) s d e f h = separate e (cc h)
pool_of-IsPool c (url Scheme.sqlite) s d e f h = cc

uses-crypto-IsPool : (c : Config) (d : Option Database) → IsPool c d → uses crypto d ≡ 0
unfolding db_eq
uses-crypto-IsPool c d (no_pool _ e) = rw e refl
uses-crypto-IsPool c d (shared _ _ e) = rw e refl
uses-crypto-IsPool c d (separate _ e) = rw e refl

uses-plugin-crypto_of : (b : Bool) (c : Config) → uses plugin (crypto_of b c) ≡ 0
unfolding crypto_of db_eq
uses-plugin-crypto_of b c = ground arith

prepare_db-parts :
    (has_store : Bool) (c : Config) (p : Pools)
    → prepare_db has_store c ≡ ready p
    → (pool_of c.plugin_postgres c.database ≡ ready p.plugin_postgres_db)
      × (p.crypto_db ≡ crypto_of has_store c)
unfolding prepare_db
prepare_db-parts has_store c p e = (ground arith, ground arith)

-- Plugins get a postgres database or none. Where the calls of start_db work, it returns, and each
-- database that the configuration uses has been opened once, the main one too if the others are the
-- same; stop then closes the main one and leaves the others open.
pub start_db-opens :
    (answer : Call → Calls → Answer) (has_store : Bool) (c : Config) (p : Pools)
    → prepare_db has_store c ≡ ready p
    → ((call : Call) (before : Calls) → answer call before ≡ works)
    → let (outcome, calls) = start_db answer p in
      IsPool c p.plugin_postgres_db
      × (outcome ≡ done)
      × (opened main calls ≡ 1)
      × (opened crypto calls ≡ uses crypto p.crypto_db)
      × (opened plugin calls ≡ uses plugin p.plugin_postgres_db)
      × (closed main (stop_calls calls) ≡ 1)
      × (closed crypto (stop_calls calls) ≡ 0)
      × (closed plugin (stop_calls calls) ≡ 0)
unfolding db_eq
start_db-opens answer has_store c p e fine =
    let h = start_db-returns answer p fine in
    let (pool, store) = prepare_db-parts has_store c p e in
    let is_pool =
      pool_of-IsPool c c.plugin_postgres c.database p.plugin_postgres_db refl refl pool in
    let no_crypto = uses-crypto-IsPool c p.plugin_postgres_db is_pool in
    let no_plugin : uses plugin p.crypto_db ≡ 0 = rw store (uses-plugin-crypto_of has_store c) in
    (
      is_pool,
      h,
      omega (
        arith,
        opened-start_db answer main p h,
        uses-main p.plugin_postgres_db,
        uses-main p.crypto_db,
      ),
      omega (arith, opened-start_db answer crypto p h),
      omega (arith, opened-start_db answer plugin p h),
      closed-stop_calls answer main p h,
      closed-stop_calls answer crypto p h,
      closed-stop_calls answer plugin p h,
    )
