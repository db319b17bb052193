-- ===== src/Client/Events.antt =====
-- The handlers that every client has, of maubot/client.py: invites, tombstones, and the outcome of
-- a sync. A room id is a text, the sender of an event is a user id, and the content of an event is what the handlers read of it.
use maubot.Base.{
  ◌∷◌, ◌≡◌, arith, eq_iff, inl, inr, ⊤, ℕ, String, Bool, true, false, ◌&&◌, not, Option, ◌==◌, leb,
  if◌then◌else◌, truthy, default,
}
use maubot.Base.Exec.{ok, Exec, pure, skip, when, ◌>>=◌, ◌>>◌}
use maubot.World.{World, Client, Call, ℤ, pos, negsuc}
use maubot.World
use maubot.Base.Rules.{Result-cases}
use maubot.World.Env.{Env, ask}
use maubot.Client.{client_at, modify_client}

pub record Tombstone : Type 0 where
  pub state_key : String
  pub room_id : String
  pub sender : String
  pub replacement_room : Option String

pub record Invite : Type 0 where
  pub state_key : String
  pub room_id : String
  pub is_invite : Bool

-- a >= b
abbrev pub at_least : ℤ → ℤ → Bool
at_least (pos a) (pos b) = leb b a
at_least (pos a) (negsuc b) = true
at_least (negsuc a) (pos b) = false
at_least (negsuc a) (negsuc b) = leb a b

-- `_set_sync_ok(ok)`
abbrev pub set_sync_ok : ℕ → Bool → Exec World ⊤
set_sync_ok a good = modify_client a (λ c. record c { sync_ok = good })

module _ (env : Env) where
  -- `_handle_invite`
  unfoldable pub handle_invite : ℕ → Invite → Exec World ⊤
  handle_invite a evt = do
    c ← client_at a
    when (evt.state_key == c.id && evt.is_invite)
        (do _ ← ask (World.join_room evt.room_id) (env.join_room evt.room_id); skip)

  -- The room to look at: the replacement, joined if need be.
  abbrev enter : Bool → String → Exec World String
  enter true room = pure room
  enter false room = ask (World.join_room room) (env.join_room room)

  abbrev judge : Bool → String → Bool → Exec World Bool
  judge is_joined room true = pure true
  judge true room false = pure false
  judge false room false = do ask (World.leave_room room) (env.leave_room room); pure false

  -- `_handle_tombstone`: whether the event goes on to the plugins
  unfoldable pub handle_tombstone : Tombstone → Exec World Bool
  handle_tombstone evt =
      if not (evt.state_key == "")
      then pure false
      else if not (truthy evt.replacement_room)
      then pure true
      else (do
        let target = default "" evt.replacement_room
        is_joined ← ask (World.is_joined target) (env.is_joined target)
        room ← enter is_joined target
        levels ← ask (World.get_state room) (env.get_levels room)
        created ← ask (World.get_state room) (env.get_create room)
        judge is_joined room (at_least (levels.user_level evt.sender created) levels.invite))

  -- Where the client was not in the replacement room and the event goes no further, the client is not
  -- in that room afterwards either: the last thing it did there was to leave. This is for an event
  -- with an empty state key and a replacement.
  pub handle_tombstone_leaves :
      (evt : Tombstone) (w : World)
      → let target = default "" evt.replacement_room in
        evt.state_key ≡ ""
        → truthy evt.replacement_room ≡ true
        → env.is_joined target w.trace ≡ ok false
        → (handle_tombstone evt w).0 ≡ ok false
        → (room : String) × (env.join_room target (World.is_joined target ∷ w.trace) ≡ ok room)
          × ((handle_tombstone evt w).1.trace
              ≡ World.leave_room room
                ∷ World.get_state room
                ∷ World.get_state room
                ∷ World.join_room target
                ∷ World.is_joined target
                ∷ w.trace)
  unfolding handle_tombstone
  handle_tombstone_leaves evt w state replaced outside dropped =
      let target = default "" evt.replacement_room in
      let t = World.is_joined target ∷ w.trace in
      elim (Result-cases (env.join_room target t)) [
        | inr (x, e) ↦ absurd (ground (arith, eq_iff evt.state_key ""))
        | inl (room, e) ↦ (room, e, ground (arith, eq_iff evt.state_key ""))
      ]
