-- ===== src/Client/Stopping.antt =====
-- `stop` of a client stops its sync and every plugin instance that runs on it.
use maubot.Base.{ℕ, ◌≡◌, true, false, arith, inl, inr}
use maubot.Base.Exec.{ok}
use maubot.World.{World}
use maubot.World.Access.{set_client}
use maubot.World.Env.{Env}
use maubot.World.Refs.{member}
use maubot.Client.Lifecycle.{stop, stop_plugins}
use maubot.Instance.Stopping.{
  gather-stop-total, gather-stop-keeps_stopped, gather-stop-clients, gather-stop-stops,
  select_cases,
}

module _ (env : Env) (a : ℕ) (w : World) where
  stop_plugins-total : (stop_plugins env a w).0 ≡ ok tt
  unfolding stop_plugins
  stop_plugins-total = gather-stop-total env _ w

  stop_plugins-clients : (stop_plugins env a w).1.clients ≡ w.clients
  unfolding stop_plugins
  stop_plugins-clients = gather-stop-clients env _ w

  stop_plugins-stops :
      (i : ℕ)
      → member i (w.clients a).references ≡ true
      → ((stop_plugins env a w).1.instances i).started ≡ false
  unfolding stop_plugins
  stop_plugins-stops i h =
      let running = λ (j : ℕ). (w.instances j).started in
      elim (select_cases running (w.clients a).references i h) [
        | inl idle ↦ gather-stop-keeps_stopped env _ i w idle
        | inr chosen ↦ gather-stop-stops env _ i w chosen
      ]

-- The state in which `stop` stops the plugins: the client counts as stopped already.
abbrev marked : ℕ → World → World
marked a w = set_client a (record (w.clients a) { started = false }) w

module _ (env : Env) (a : ℕ) (w : World) (on : (w.clients a).started ≡ true) where
  stop-after :
      let w₂ = (stop_plugins env a (marked a w)).1 in
      let w' = (stop env a w).1 in
      (w'.instances ≡ w₂.instances)
      × ((w'.clients a).started ≡ (w₂.clients a).started)
      × ((w'.clients a).client.syncing ≡ false)
  unfolding stop
  stop-after = ground (arith, stop_plugins-total env a (marked a w))

  -- `stop` of a client that runs leaves the client stopped, its sync stopped, and every plugin instance
  -- in its set of references stopped.
  pub stop_stops :
      let w' = (stop env a w).1 in
      ((w'.clients a).started ≡ false)
      × ((w'.clients a).client.syncing ≡ false)
      × ((i : ℕ) → member i (w.clients a).references ≡ true → (w'.instances i).started ≡ false)
  stop_stops =
      let (same, mark, quiet) = stop-after in
      (
        ground (arith, mark, stop_plugins-clients env a (marked a w)),
        quiet,
        λ i h. rw same (stop_plugins-stops env a (marked a w) i (ground arith)),
      )
