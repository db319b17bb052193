-- ===== src/Client/Lookup.antt =====
-- `Client.get`: one object for each user, and what a new object starts with.
use maubot.Base.{
  ◌∙◌, if◌then◌else◌, Bool-cases, ℕ, ◌≡◌, refl, String, Bool, false, Option, some, List, [], ◌∷◌,
  ◌++◌, arith, eq_refl, inl, inr, Option-cases,
}
use maubot.Base.Dict.{update, lookup, lookup-insert}
use maubot.Base.Exec.{ok}
use maubot.World.{World, Client, ClientRow, Handler, invite, sync_errored, sync_successful}
use maubot.World.Env.{Env}
use maubot.Client
use maubot.Client.Update.{is_invite}
use maubot.Client.Settings.{IsConsistent, has_invite, has_invite-append}

-- The rows of the table stand under their ids.
abbrev pub IsKeyed : World → Type 0
IsKeyed w = (user : String) (r : ClientRow) → lookup user w.client_table ≡ some r → r.id ≡ user

module _ (env : Env) where
  -- The same object comes back, whatever credentials are given.
  get_cached :
      (user : String) (a : ℕ) (w : World) (h t d : Option String)
      → lookup user w.client_cache ≡ some a
      → Client.get env user h t d w ≡ (ok (some a), w)
  unfolding Client.get
  get_cached user a w h t d hit = ground arith

  get-caches :
      (user : String) (a : ℕ) (w : World) (h t d : Option String)
      → IsKeyed w
      → (Client.get env user h t d w).0 ≡ ok (some a)
      → lookup user (Client.get env user h t d w).1.client_cache ≡ some a
  unfolding Client.get Client.postinit
  get-caches user a w h t d keyed found = elim (Option-cases (lookup user w.client_table)) [
    | inl absent ↦
        ground (arith, lookup-insert user user w.next_client w.client_cache, eq_refl user)
    | inr (r, there) ↦ ground (
      arith,
      keyed user r there,
      lookup-insert user user w.next_client w.client_cache,
      eq_refl user,
    )
  ]

  -- A lookup that returned a client makes every later lookup of this user return the same object
  -- and change nothing, whatever credentials it is given, where rows stand under their ids.
  pub get_twice :
      (user : String) (a : ℕ) (w : World) (h t d h' t' d' : Option String)
      → IsKeyed w
      → (Client.get env user h t d w).0 ≡ ok (some a)
      → let w' = (Client.get env user h t d w).1 in
        Client.get env user h' t' d' w' ≡ (ok (some a), w')
  get_twice user a w h t d h' t' d' keyed found =
      get_cached user a (Client.get env user h t d w).1 h' t' d'
        (get-caches user a w h t d keyed found)

  written : (f : ℕ → Client) (b : ℕ) (c : Client) → update f b c b ≡ c
  written f b c = ground arith

  own_invite :
      (hs : List Handler) (b : Bool)
      → has_invite hs ≡ false
      → has_invite
          (hs ++ ((if b then invite ∷ [] else []) ++ (sync_errored ∷ sync_successful ∷ [])))
        ≡ b
  unfolding has_invite is_invite
  own_invite hs b plain =
      let own = (if b then invite ∷ [] else []) ++ (sync_errored ∷ sync_successful ∷ []) in
      elim (Bool-cases b) [
        | inl on ↦
            rw on
              (has_invite-append hs (invite ∷ sync_errored ∷ sync_successful ∷ []) ∙ rw plain refl)
        | inr off ↦
            rw off (has_invite-append hs (sync_errored ∷ sync_successful ∷ []) ∙ rw plain refl)
      ]

  crypto_plain :
      (c : Client)
      → has_invite env.olm_handlers ≡ false
      → has_invite (Client.with_crypto env (Client.fresh_state env c)).client.event_handlers ≡ false
  unfolding has_invite Client.make_client Client.prepare_crypto
  crypto_plain c plain = elim (Bool-cases (Client.enable_crypto env (Client.fresh_state env c))) [
    | inl on ↦ rw on plain
    | inr off ↦ rw off refl
  ]

  -- A client that `postinit` has set up shows the presence of its row, and accepts invites if and
  -- only if its row says so, where the encryption library registers no invite handler.
  pub postinit-IsConsistent :
      (a : ℕ) (w : World)
      → has_invite env.olm_handlers ≡ false
      → (w.clients a).postinited ≡ false
      → ((Client.postinit env a w).0 ≡ ok tt) × IsConsistent ((Client.postinit env a w).1.clients a)
  unfolding Client.postinit
  postinit-IsConsistent a w plain new =
      let c : Client = Client.with_crypto env (Client.fresh_state env (w.clients a)) in
      rw new (
        refl,
        record {
          presence = rw (written w.clients a (Client.with_handlers env c)) refl;
          invites =
              rw (written w.clients a (Client.with_handlers env c))
                (own_invite c.client.event_handlers c.autojoin (crypto_plain (w.clients a) plain));
        },
      )
