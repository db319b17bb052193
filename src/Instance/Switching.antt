-- ===== src/Instance/Switching.antt =====
-- `update_primary_user`: the instance moves from the references of its old client to those of the new.
use maubot.Base.{nat_eq, ap, ⊤, ℕ, ◌≡◌, ◌≢◌, refl, ◌∙◌, String, true, none, some, arith}
use maubot.Base.Exec.{gets, Exec, skip, ◌>>=◌, ◌>>◌}
use maubot.World.{World, Client, Instance}
use maubot.World.Access.{set_instance, set_client, save_instance, equal_to, equal_to-id}
use maubot.World.Env.{Env}
use maubot.World.Refs.{member, add, remove, RefSet, member-add, remove-cong, add-cong}
use maubot.Instance.{
  save, add_to_client, instance_at, with_row, modify_instance, remove_from_client,
}
use maubot.Instance.Stores.{stop_database}
use maubot.Instance.Lifecycle.{start, stop}
use maubot.Instance.Update.{switch_user, update_primary_user}
use maubot.Client
use maubot.Base.Dict.{lookup, update}
use maubot.Base.{eq_iff}
use maubot.Instance.Stopping.{stop_frame, stop-total}
use maubot.Instance.Starting.{start-Has}

module _ (env : Env) (a : ℕ) (w : World) where
  stop_links :
      let w' = (stop env a w).1 in
      ((w'.instances a).row ≡ (w.instances a).row)
      × ((w'.instances a).client ≡ (w.instances a).client)
      × ((w'.instances a).loader ≡ (w.instances a).loader)
  unfolding stop stop_database
  stop_links = ground arith

-- The instance with its new user, and with its new client.
abbrev with_user : ℕ → ℕ → World → Instance
with_user a c v = record (v.instances a) {
  row = record ((v.instances a).row) { primary_user = (v.clients c).id };
}

abbrev with_client : ℕ → ℕ → World → Instance
with_client a c v = record (with_user a c v) { client = some c }

-- The objects in front of the removal from the old set, and of the addition to the new one.
abbrev renamed : ℕ → ℕ → World → ℕ → Instance
renamed a c v = update v.instances a (with_user a c v)

abbrev moved : ℕ → ℕ → World → ℕ → Instance
moved a c v = update (renamed a c v) a (with_client a c v)

-- The state in front of the `start` that ends the switch.
abbrev relinked : Env → ℕ → ℕ → ℕ → RefSet → World → World
relinked env a c old rest v =
    let v₁ : World =
      set_client old (record (v.clients old) { references = rest })
        (set_instance a (with_user a c v) v) in
    let v₂ : World = set_instance a (with_client a c v) v₁ in
    let h = env.hash (v.instances a).id in
    let same = equal_to a (moved a c v) in
    save_instance a (
      set_client c (record (v₂.clients c) { references = add h a same (v₂.clients c).references })
        v₂)

-- Every object of the set that has the id of the instance is the instance.
abbrev IsAlone : ℕ → World → RefSet → Type 0
IsAlone a w refs = (b : ℕ) → member b refs ≡ true → (w.instances b).id ≡ (w.instances a).id → b ≡ a

module _ (env : Env) (a c old l : ℕ) (rest : RefSet) (v : World)
    (from : (v.instances a).client ≡ some old) (loaded : (v.instances a).loader ≡ some l)
    (other : c ≢ old) where
  relinked_links :
      let w' = relinked env a c old rest v in
      ((w'.instances a).client ≡ some c)
      × ((w'.instances a).loader ≡ some l)
      × ((w'.clients old).references ≡ rest)
      × ((w'.clients c).references
          ≡ add (env.hash (v.instances a).id) a (equal_to a (moved a c v)) (v.clients c).references)
  relinked_links = ground arith

  -- `switch_user`, behind the `stop` it begins with.
  abbrev rest_of_switch : Exec World ⊤
  rest_of_switch = do
    user ← gets (λ s. (s.clients c).id)
    modify_instance a (with_row (λ r. record r { primary_user = user }))
    i ← instance_at a
    elim i.client [ none ↦ skip | some o ↦ remove_from_client env a o ]
    modify_instance a (λ o. record o { client = some c })
    add_to_client env a c
    save a
    start env a

  rest_steps :
      remove (env.hash (v.instances a).id) (equal_to a (renamed a c v)) (v.clients old).references
        ≡ some rest
      → rest_of_switch v ≡ start env a (relinked env a c old rest v)
  unfolding remove_from_client
  rest_steps e = ground arith

module _ (env : Env) (a c old l : ℕ) (rest : RefSet) (w : World)
    (from : (w.instances a).client ≡ some old) (loaded : (w.instances a).loader ≡ some l)
    (other : c ≢ old)
    (listed : remove (env.hash (w.instances a).id) (λ b. nat_eq b a) (w.clients old).references
      ≡ some rest)
    (alone_before : IsAlone a w (w.clients old).references)
    (alone_behind : IsAlone a w (w.clients c).references) where
  abbrev stopped : World
  stopped = (stop env a w).1

  stop-ids : (b : ℕ) → (stopped.instances b).id ≡ (w.instances b).id
  unfolding stop stop_database
  stop-ids b = ground arith

  renamed-is :
      (b : ℕ)
      → ((w.instances b).id ≡ (w.instances a).id → b ≡ a)
      → equal_to a (renamed a c stopped) b ≡ nat_eq b a
  renamed-is b alone =
      equal_to-id a b (renamed a c stopped) (λ e. alone (ground (arith, e, stop-ids a, stop-ids b)))

  moved-is :
      (b : ℕ)
      → ((w.instances b).id ≡ (w.instances a).id → b ≡ a)
      → equal_to a (moved a c stopped) b ≡ nat_eq b a
  moved-is b alone =
      equal_to-id a b (moved a c stopped) (λ e. alone (ground (arith, e, stop-ids a, stop-ids b)))

  removed :
      remove
        (env.hash (stopped.instances a).id)
        (equal_to a (renamed a c stopped))
        (stopped.clients old).references
      ≡ some rest
  removed =
      let (clients, _, _, _, _) = stop_frame env a w in
      ap
        (λ k.
          remove (env.hash k) (equal_to a (renamed a c stopped)) (stopped.clients old).references)
        (stop-ids a)
      ∙ ap
          (λ (o : ℕ → Client).
            remove (env.hash (w.instances a).id) (equal_to a (renamed a c stopped))
              (o old).references)
          clients
      ∙ remove-cong (env.hash (w.instances a).id) (equal_to a (renamed a c stopped))
          (λ b. nat_eq b a) (w.clients old).references
          (λ b there. renamed-is b (alone_before b there))
      ∙ listed

  added :
      (h : ℕ)
      → member a (add h a (equal_to a (moved a c stopped)) (stopped.clients c).references) ≡ true
  added h =
      let (clients, _, _, _, _) = stop_frame env a w in
      ap (λ (o : ℕ → Client). member a (add h a (equal_to a (moved a c stopped)) (o c).references))
        clients
      ∙ ap (member a) (
          add-cong h (equal_to a (moved a c stopped)) (λ b. nat_eq b a) a (w.clients c).references
            (λ b there. moved-is b (alone_behind b there)))
      ∙ member-add h a (w.clients c).references

  switch_user_steps : switch_user env a c w ≡ start env a (relinked env a c old rest stopped)
  unfolding switch_user
  switch_user_steps =
      let (row, client, loader) = stop_links env a w in
      rw (stop-total env a w)
        (rest_steps env a c old l rest stopped (client ∙ from) (loader ∙ loaded) other removed)

  switch_user_moves :
      let w' = (switch_user env a c w).1 in
      ((w'.clients old).references ≡ rest) × (member a (w'.clients c).references ≡ true)
  switch_user_moves =
      let v : World = relinked env a c old rest stopped in
      let (row, client, loader) = stop_links env a w in
      let (user, plugin, before, after) =
        relinked_links env a c old l rest stopped (client ∙ from) (loader ∙ loaded) other in
      let same = start-Has env a v.clients v (ground (arith, user, plugin)) refl in
      let h = env.hash (stopped.instances a).id in
      rw (switch_user_steps, same) (before, ap (member a) after ∙ added h)

  -- `update_primary_user` to another user, whose client is in the cache, of an instance that has a
  -- loader and stands in the references of its old client: the old client's references are those
  -- without the instance and the new client's have it, also where the instance does not start on the
  -- new client. No other object with the same id stands in the references of the two clients.
  pub update_primary_user_moves :
      (user : String)
      → user ≢ (w.instances a).primary_user
      → lookup user w.client_cache ≡ some c
      → let w' = (update_primary_user env a (some user) w).1 in
        ((w'.clients old).references ≡ rest) × (member a (w'.clients c).references ≡ true)
  unfolding update_primary_user Client.get
  update_primary_user_moves user changed hit =
      ground (arith, switch_user_moves, eq_iff user (w.instances a).primary_user)
