-- ===== src/Api/Halting.antt =====
-- `stop_instances` of loader/abc.py, before a plugin is reloaded or replaced.
use maubot.Base.{ℕ, ◌≡◌, true, false, inl, inr}
use maubot.Base.Exec.{ok}
use maubot.World.{World}
use maubot.World.Env.{Env}
use maubot.World.Refs.{member}
use maubot.Api.Plugins.{stop_instances}
use maubot.Instance.Stopping.{
  gather-stop-total, gather-stop-keeps_stopped, gather-stop-stops, select_cases,
}

-- No instance of a loader runs after `stop_instances`, and what the plugins raise while they stop
-- stays inside.
stop_instances_stops :
    (env : Env) (l i : ℕ) (w : World)
    → member i (w.loaders l).references ≡ true
    → ((stop_instances env l w).0 ≡ ok tt)
      × (((stop_instances env l w).1.instances i).started ≡ false)
unfolding stop_instances
stop_instances_stops env l i w h =
    let running = λ (j : ℕ). (w.instances j).started in
    (
      gather-stop-total env _ w,
      elim (select_cases running (w.loaders l).references i h) [
        | inl idle ↦ gather-stop-keeps_stopped env _ i w idle
        | inr chosen ↦ gather-stop-stops env _ i w chosen
      ],
    )
