-- ===== src/Program/Counting.antt =====
-- How often the calls of start_db and stop open and close each database (maubot/__main__.py).
use maubot.Base.{
  ℕ, Bool, true, false, Option, none, some, [], ◌∷◌, ◌++◌, ◌≡◌, refl, arith, ◌+◌, if◌then◌else◌,
  sym, suc,
}
use mathlib.Core.List.{append_assoc, append-nil}
use maubot.Program.{
  works, Database, main, crypto, plugin, Pools, Call, open_db, close_db, upgrade_state,
  upgrade_crypto, stop_server, Answer, done, Calls, run_all, of_plugin, of_crypto, start_db,
  stop_calls,
}

unfoldable pub db_eq : Database → Database → Bool
db_eq main main = true
db_eq crypto crypto = true
db_eq plugin plugin = true
db_eq _ _ = false

-- How often a database is opened, and closed.
unfoldable pub opened : Database → Calls → ℕ
opened d [] = 0
opened d (open_db e ∷ cs) = let rest = opened d cs in if db_eq d e then suc rest else rest
opened d (_ ∷ cs) = opened d cs

unfoldable pub closed : Database → Calls → ℕ
closed d [] = 0
closed d (close_db e ∷ cs) = let rest = closed d cs in if db_eq d e then suc rest else rest
closed d (_ ∷ cs) = closed d cs

opened-append : (d : Database) (xs ys : Calls) → opened d (xs ++ ys) ≡ opened d xs + opened d ys
unfolding opened
opened-append d [] ys = omega arith
opened-append d (open_db e ∷ xs) ys = ground (arith, opened-append d xs ys)
opened-append d (close_db e ∷ xs) ys = opened-append d xs ys
opened-append d (upgrade_state ∷ xs) ys = opened-append d xs ys
opened-append d (upgrade_crypto ∷ xs) ys = opened-append d xs ys
opened-append d (stop_server ∷ xs) ys = opened-append d xs ys

closed-append : (d : Database) (xs ys : Calls) → closed d (xs ++ ys) ≡ closed d xs + closed d ys
unfolding closed
closed-append d [] ys = omega arith
closed-append d (close_db e ∷ xs) ys = ground (arith, closed-append d xs ys)
closed-append d (open_db e ∷ xs) ys = closed-append d xs ys
closed-append d (upgrade_state ∷ xs) ys = closed-append d xs ys
closed-append d (upgrade_crypto ∷ xs) ys = closed-append d xs ys
closed-append d (stop_server ∷ xs) ys = closed-append d xs ys

-- The database stands in an entry of the pools, and is not the main one.
abbrev pub uses : Database → Option Database → ℕ
uses d none = 0
uses main (some e) = 0
uses d (some e) = if db_eq d e then 1 else 0

abbrev own : Database → Pools → ℕ
own d p = uses d p.plugin_postgres_db + uses d p.crypto_db

pub uses-main : (p : Option Database) → uses main p ≡ 0
uses-main none = refl
uses-main (some d) = refl

module _ (answer : Call → Calls → Answer) where
  run_all-done :
      (cs made : Calls)
      → (run_all answer cs made).0 ≡ done
      → (run_all answer cs made).1 ≡ made ++ cs
  unfolding run_all
  run_all-done [] made e = sym (append-nil made)
  run_all-done (c ∷ cs) made e =
      ground (arith, run_all-done cs (made ++ (c ∷ [])), append_assoc made (c ∷ []) cs)

  run_all-returns :
      (cs made : Calls)
      → ((c : Call) (before : Calls) → answer c before ≡ works)
      → (run_all answer cs made).0 ≡ done
  unfolding run_all
  run_all-returns [] made fine = refl
  run_all-returns (c ∷ cs) made fine =
      ground (arith, fine c made, run_all-returns cs (made ++ (c ∷ [])) fine)

  pub start_db-returns :
      (p : Pools)
      → ((c : Call) (before : Calls) → answer c before ≡ works)
      → (start_db answer p).0 ≡ done
  unfolding start_db
  start_db-returns p fine =
      run_all-returns
        (open_db main
          ∷ upgrade_state
          ∷ (of_plugin answer p.plugin_postgres_db ++ of_crypto answer p.crypto_db))
        [] fine

  opened-of_plugin : (d : Database) (p : Option Database) → opened d (of_plugin answer p) ≡ uses d p
  unfolding opened db_eq
  opened-of_plugin main none = refl
  opened-of_plugin main (some main) = refl
  opened-of_plugin main (some crypto) = refl
  opened-of_plugin main (some plugin) = refl
  opened-of_plugin crypto none = refl
  opened-of_plugin crypto (some main) = refl
  opened-of_plugin crypto (some crypto) = refl
  opened-of_plugin crypto (some plugin) = refl
  opened-of_plugin plugin none = refl
  opened-of_plugin plugin (some main) = refl
  opened-of_plugin plugin (some crypto) = refl
  opened-of_plugin plugin (some plugin) = refl

  opened-of_crypto : (d : Database) (p : Option Database) → opened d (of_crypto answer p) ≡ uses d p
  unfolding opened db_eq
  opened-of_crypto main none = refl
  opened-of_crypto main (some main) = refl
  opened-of_crypto main (some crypto) = refl
  opened-of_crypto main (some plugin) = refl
  opened-of_crypto crypto none = refl
  opened-of_crypto crypto (some main) = refl
  opened-of_crypto crypto (some crypto) = refl
  opened-of_crypto crypto (some plugin) = refl
  opened-of_crypto plugin none = refl
  opened-of_crypto plugin (some main) = refl
  opened-of_crypto plugin (some crypto) = refl
  opened-of_crypto plugin (some plugin) = refl

  closed-of_plugin : (d : Database) (p : Option Database) → closed d (of_plugin answer p) ≡ 0
  unfolding closed
  closed-of_plugin d none = refl
  closed-of_plugin d (some main) = refl
  closed-of_plugin d (some crypto) = refl
  closed-of_plugin d (some plugin) = refl

  closed-of_crypto : (d : Database) (p : Option Database) → closed d (of_crypto answer p) ≡ 0
  unfolding closed
  closed-of_crypto d none = refl
  closed-of_crypto d (some main) = refl
  closed-of_crypto d (some crypto) = refl
  closed-of_crypto d (some plugin) = refl

  start_db-calls :
      (p : Pools)
      → (start_db answer p).0 ≡ done
      → (start_db answer p).1
        ≡ open_db main
          ∷ upgrade_state
          ∷ (of_plugin answer p.plugin_postgres_db ++ of_crypto answer p.crypto_db)
  unfolding start_db
  start_db-calls p e = run_all-done _ [] e

  pub opened-start_db :
      (d : Database) (p : Pools)
      → (start_db answer p).0 ≡ done
      → opened d (start_db answer p).1 ≡ (if db_eq d main then 1 else 0) + own d p
  unfolding opened db_eq
  opened-start_db d p e = rw (start_db-calls p e) (
      ground (
        arith,
        opened-append d (of_plugin answer p.plugin_postgres_db) (of_crypto answer p.crypto_db),
        opened-of_plugin d p.plugin_postgres_db,
        opened-of_crypto d p.crypto_db,
      ))

  pub closed-stop_calls :
      (d : Database) (p : Pools)
      → (start_db answer p).0 ≡ done
      → closed d (stop_calls (start_db answer p).1) ≡ (if db_eq d main then 1 else 0)
  unfolding stop_calls closed
  closed-stop_calls d p e =
      let made = of_plugin answer p.plugin_postgres_db ++ of_crypto answer p.crypto_db in
      rw (start_db-calls p e) (
        ground (
          arith,
          closed-append d made (stop_server ∷ close_db main ∷ []),
          closed-append d (of_plugin answer p.plugin_postgres_db) (of_crypto answer p.crypto_db),
          closed-of_plugin d p.plugin_postgres_db,
          closed-of_crypto d p.crypto_db,
        ))
