-- ===== src/Instance/Stopping.antt =====
-- `stop` of an instance always comes to an end without an exception, and touches nothing else.
use maubot.Base.{
  ℕ, ◌≡◌, refl, Bool, true, false, arith, nat_eq, ◌≢◌, ◌⊎◌, inl, inr, [], ◌∷◌, Bool-cases,
}
use maubot.Base.Exec.{ok}
use maubot.World.{World}
use maubot.World.Env.{Env}
use maubot.World.Refs.{RefSet, member}
use maubot.World.Gather.{gather, select}
use maubot.Instance.Stores.{stop_database}
use maubot.Instance.Lifecycle.{stop}

module _ (env : Env) where
  module _ (a : ℕ) (w : World) where
    pub stop-total : (stop env a w).0 ≡ ok tt
    unfolding stop
    stop-total = ground arith

    -- All that is not in the record of the instance, the trace aside.
    pub stop_frame :
        let w' = (stop env a w).1 in
        (w'.clients ≡ w.clients)
        × (w'.loaders ≡ w.loaders)
        × (w'.client_table ≡ w.client_table)
        × (w'.instance_table ≡ w.instance_table)
        × (w'.instance_cache ≡ w.instance_cache)
    unfolding stop stop_database
    stop_frame = ground arith

    pub stop-stopped : ((stop env a w).1.instances a).started ≡ false
    unfolding stop stop_database
    stop-stopped = ground arith

    pub stop-others : (b : ℕ) → b ≢ a → (stop env a w).1.instances b ≡ w.instances b
    unfolding stop stop_database
    stop-others b ne = ground arith

  pub stop-keeps_stopped :
      (a b : ℕ) (w : World)
      → (w.instances b).started ≡ false
      → ((stop env a w).1.instances b).started ≡ false
  stop-keeps_stopped a b w h = elim (Bool-cases (nat_eq a b)) [
    | inl same ↦ ground (arith, stop-stopped a w)
    | inr other ↦ ground (arith, stop-others a w b)
  ]

  -- Stopping the instances of a set one after another raises nothing and stops each of them.
  pub gather-stop-total : (refs : RefSet) (w : World) → (gather (stop env) refs w).0 ≡ ok tt
  unfolding gather
  gather-stop-total [] w = refl
  gather-stop-total ((h, i) ∷ refs) w =
      ground (arith, stop-total i w, gather-stop-total refs (stop env i w).1)

  pub gather-stop-keeps_stopped :
      (refs : RefSet) (b : ℕ) (w : World)
      → (w.instances b).started ≡ false
      → ((gather (stop env) refs w).1.instances b).started ≡ false
  unfolding gather
  gather-stop-keeps_stopped [] b w h = h
  gather-stop-keeps_stopped ((_, i) ∷ refs) b w h =
      gather-stop-keeps_stopped refs b (stop env i w).1 (stop-keeps_stopped i b w h)

  pub gather-stop-clients :
      (refs : RefSet) (w : World) → (gather (stop env) refs w).1.clients ≡ w.clients
  unfolding gather
  gather-stop-clients [] w = refl
  gather-stop-clients ((_, i) ∷ refs) w =
      ground (arith, gather-stop-clients refs (stop env i w).1, stop_frame i w)

  pub gather-stop-stops :
      (refs : RefSet) (b : ℕ) (w : World)
      → member b refs ≡ true
      → ((gather (stop env) refs w).1.instances b).started ≡ false
  unfolding gather member
  gather-stop-stops [] b w h = cc
  gather-stop-stops ((_, i) ∷ refs) b w h = elim (Bool-cases (nat_eq i b)) [
    | inl same ↦
        gather-stop-keeps_stopped refs b (stop env i w).1 (ground (arith, stop-stopped i w))
    | inr other ↦ gather-stop-stops refs b (stop env i w).1 (ground arith)
  ]

-- Of the instances of a set, `select` leaves out those that fail the test.
pub select_cases :
    (test : ℕ → Bool) (refs : RefSet) (b : ℕ)
    → member b refs ≡ true
    → (test b ≡ false) ⊎ (member b (select test refs) ≡ true)
unfolding select member
select_cases test [] b h = cc
select_cases test ((_, i) ∷ refs) b h = elim (Bool-cases (nat_eq i b)) [
  | inl same ↦ ground arith
  | inr other ↦ ground (arith, select_cases test refs b)
]
