-- ===== src/Examples/Starting.antt =====
-- The theorems on the start of the program, with databases of their own for plugins and encryption,
-- and with the instance of the example state.
use maubot.Base.{ℕ, ◌≡◌, refl, List, true, false, some}
use maubot.Base.Exec.{ok}
use maubot.Program.{
  done, Scheme, url, Config, main, crypto, plugin, Pools, prepare_db, Call, Calls, Answer, works,
  start_db, stop_calls,
}
use maubot.Program.Counting.{opened, closed, db_eq}
use maubot.Program.Opening.{IsPool, start_db-opens}
use maubot.Instance.Every.{all, AreCached, all-AreCached}
use maubot.Examples.Instances.{idle}

abbrev separate : Config
separate = record {
  database = Scheme.sqlite;
  crypto_is_default = false;
  plugin_postgres = url Scheme.postgres;
}

abbrev pools : Pools
pools = record { crypto_db = some crypto; plugin_postgres_db = some plugin }

abbrev fine : Call → Calls → Answer
fine c made = works

start_db-opens_example :
    let (outcome, calls) = start_db fine pools in
    IsPool separate (some plugin)
    × (outcome ≡ done)
    × (opened main calls ≡ 1)
    × (opened crypto calls ≡ 1)
    × (opened plugin calls ≡ 1)
    × (closed main (stop_calls calls) ≡ 1)
    × (closed crypto (stop_calls calls) ≡ 0)
    × (closed plugin (stop_calls calls) ≡ 0)
unfolding prepare_db start_db db_eq
start_db-opens_example = start_db-opens fine true separate pools refl (λ c made. refl)

all-AreCached_example :
    let w' = (all idle).1 in
    (bs : List ℕ) × ((all idle).0 ≡ ok bs)
    × AreCached w' idle.instance_table bs
    × (w'.instance_table ≡ idle.instance_table)
    × (all w' ≡ (ok bs, w'))
all-AreCached_example = all-AreCached idle (refl, tt)
