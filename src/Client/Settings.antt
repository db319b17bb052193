-- ===== src/Client/Settings.antt =====
-- The settings of a client, its row in the table and its Matrix client agree.
use maubot.Base.{
  ℕ, ◌≡◌, refl, Bool, true, false, Option, none, some, List, [], ◌∷◌, ◌++◌, arith, ◌||◌, eq_refl,
  ap, is_some,
}
use maubot.Base.Dict.{lookup, insert, lookup-insert}
use maubot.World.{World, Client, ClientRow, Handler, invite}
use maubot.Client.Update.{
  update_enabled, update_autojoin, update_online, update_sync, without, is_invite,
}
use maubot.Client.Failures.{IsSaved, HasRow}
use maubot.World.Access.{save_client}

unfoldable pub has_invite : List Handler → Bool
unfolding is_invite
has_invite [] = false
has_invite (h ∷ hs) = is_invite h || has_invite hs

pub has_invite-append :
    (xs ys : List Handler) → has_invite (xs ++ ys) ≡ (has_invite xs || has_invite ys)
unfolding has_invite
has_invite-append [] ys = refl
has_invite-append (x ∷ xs) ys = ground (arith, has_invite-append xs ys)

has_invite-without : (xs : List Handler) → has_invite (without is_invite xs) ≡ false
unfolding has_invite without
has_invite-without [] = refl
has_invite-without (x ∷ xs) = ground (arith, has_invite-without xs)

-- The Matrix client shows the presence that is set, and accepts invites if and only if it should.
pub record IsConsistent (c : Client) : Type 0 where
  pub presence : c.client.presence_online ≡ c.online
  pub invites : has_invite c.client.event_handlers ≡ c.autojoin

module _ (a : ℕ) (keep : Bool) (w : World) (h : IsConsistent (w.clients a)) where
  -- `update_online` keeps a client consistent: the presence of the Matrix client is the setting, and the
  -- invite handler is registered if and only if the client should accept invites.
  pub update_online-IsConsistent :
      (b : Option Bool) → IsConsistent ((update_online a b keep w).1.clients a)
  unfolding update_online
  update_online-IsConsistent none = h
  update_online-IsConsistent (some b) = ground arith

  -- `update_autojoin` keeps a client consistent: the presence of the Matrix client is the setting, and
  -- the invite handler is registered if and only if the client should accept invites.
  pub update_autojoin-IsConsistent :
      (b : Option Bool) → IsConsistent ((update_autojoin a b keep w).1.clients a)
  unfolding update_autojoin has_invite
  update_autojoin-IsConsistent none = h
  update_autojoin-IsConsistent (some b) =
      let hs = (w.clients a).client.event_handlers in
      ground (arith, has_invite-append hs (invite ∷ []), has_invite-without hs)

-- Writing back makes the two rows one, where there is a row.
pub save-IsSaved : (a : ℕ) (w : World) → HasRow a w → IsSaved a (save_client a w)
save-IsSaved a w row =
    let r = (w.clients a).row in
    ground (arith, row, lookup-insert r.id r.id r w.client_table, eq_refl r.id)

IsSaved-HasRow : (a : ℕ) (w : World) → IsSaved a w → HasRow a w
IsSaved-HasRow a w h = ap is_some h

-- An update that is to be saved leaves the row of the table as the row in memory.
module _ (a : ℕ) (w : World) (h : IsSaved a w) where
  abbrev IsWritten : ClientRow → Type 0
  IsWritten r = lookup r.id (insert r.id r w.client_table) ≡ some r

  inserted : (r : ClientRow) → IsWritten r
  inserted r = rw (lookup-insert, eq_refl)

  update_enabled-IsSaved : (b : Bool) → IsSaved a (update_enabled a (some b) true w).1
  unfolding update_enabled
  update_enabled-IsSaved b =
      let r = (w.clients a).row in
      ground (arith, IsSaved-HasRow a w h, inserted (record r { enabled = b }))

  update_online-IsSaved : (b : Bool) → IsSaved a (update_online a (some b) true w).1
  unfolding update_online
  update_online-IsSaved b =
      let r = (w.clients a).row in
      ground (arith, IsSaved-HasRow a w h, inserted (record r { online = b }))

  update_autojoin-IsSaved : (b : Bool) → IsSaved a (update_autojoin a (some b) true w).1
  unfolding update_autojoin
  update_autojoin-IsSaved b =
      let r = (w.clients a).row in
      ground (arith, IsSaved-HasRow a w h, inserted (record r { autojoin = b }))

  update_sync-IsSaved : (b : Bool) → IsSaved a (update_sync a (some b) true w).1
  unfolding update_sync
  update_sync-IsSaved b =
      let r = (w.clients a).row in
      ground (arith, IsSaved-HasRow a w h, inserted (record r { sync = b }))

  -- Where the client's row in the table is its row in memory, it still is after each of `update_enabled`,
  -- `update_autojoin`, `update_online` and `update_sync` that is to save.
  pub settings-IsSaved :
      (b : Bool)
      → IsSaved a (update_enabled a (some b) true w).1
        × IsSaved a (update_autojoin a (some b) true w).1
        × IsSaved a (update_online a (some b) true w).1
        × IsSaved a (update_sync a (some b) true w).1
  settings-IsSaved b = (
    update_enabled-IsSaved b,
    update_autojoin-IsSaved b,
    update_online-IsSaved b,
    update_sync-IsSaved b,
  )
