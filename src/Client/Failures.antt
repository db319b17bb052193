-- ===== src/Client/Failures.antt =====
-- What `start` does with a client that the server refuses.
use maubot.Base.{
  ℕ, ◌+◌, ◌≡◌, refl, ◌≢◌, ◌⊎◌, true, false, some, ◌∷◌, arith, leb, ◌≤◌, ◌<◌, if◌then◌else◌, eq_iff,
  eq_refl, inl, inr, Bool-cases,
}
use maubot.Base.Dict.{lookup, lookup-insert, contains}
use maubot.Base.Exec.{Result, ok, err, Exc, invalid_token}
use maubot.World.{World, start_client}
use maubot.World.Env.{Env, WhoAmI}
use maubot.Client.Lifecycle.{start, check_whoami, start_inner, disable, ask_whoami, device_differs}
use maubot.Client.Update.{set_enabled}

-- The client's row of the table is its row in memory.
abbrev pub IsSaved : ℕ → World → Type 0
IsSaved a w = lookup (w.clients a).id w.client_table ≡ some (w.clients a).row

abbrev pub HasRow : ℕ → World → Type 0
HasRow a w = contains (w.clients a).id w.client_table ≡ true

-- What is left of a client that was disabled: its row says so too, and nothing else is new.
abbrev pub IsDisabled : ℕ → World → World → Type 0
IsDisabled a w w' =
    ((w'.clients a).enabled ≡ false)
    × IsSaved a w'
    × ((w'.clients a).started ≡ false)
    × (w'.tasks ≡ w.tasks)

module _ (env : Env) where
  pub start_disabled :
      (a n : ℕ) (w : World) → (w.clients a).enabled ≡ false → start env a n w ≡ (ok tt, w)
  unfolding start
  start_disabled a n w h = ground arith

  pub start_started :
      (a n : ℕ) (w : World) → (w.clients a).started ≡ true → start env a n w ≡ (ok tt, w)
  unfolding start
  start_started a n w h = ground arith

  -- Disabling a client reaches its row in the table.
  pub disable-IsSaved : (a : ℕ) (w : World) → HasRow a w → IsSaved a (disable a w).1
  disable-IsSaved a w h = ground (
    arith,
    lookup-insert (w.clients a).id (w.clients a).id (set_enabled false (w.clients a)).row
        w.client_table,
    eq_refl (w.clients a).id,
  )

  -- Asking the server changes nothing but the record of what was asked.
  abbrev pub asked : ℕ → World → World
  asked a w = record w { trace = (ask_whoami env a w).1.trace }

  pub ask_whoami-asked : (a : ℕ) (w : World) → (ask_whoami env a w).1 ≡ asked a w
  unfolding ask_whoami
  ask_whoami-asked a w = ground arith

  disable-IsDisabled :
      (a : ℕ) (w w₁ : World)
      → HasRow a w₁
      → (w₁.clients a).started ≡ false
      → w₁.tasks ≡ w.tasks
      → IsDisabled a w (disable a w₁).1
  disable-IsDisabled a w w₁ row idle same = ground (arith, disable-IsSaved a w₁ row)

  check_whoami-idle :
      (a n : ℕ) (x : Exc) (w : World)
      → (w.clients a).started ≡ false
      → ((check_whoami env a n (err x) w).1.clients a).started ≡ false
  unfolding check_whoami
  check_whoami-idle a n x w off = ground arith

  check_whoami_confirms :
      (a n : ℕ) (r : Result WhoAmI) (w : World)
      → (w.clients a).started ≡ false
      → ((check_whoami env a n r w).1.clients a).started ≡ true
      → (who : WhoAmI) × (r ≡ ok who)
        × (who.user_id ≡ (w.clients a).id)
        × (device_differs who (w.clients a) ≡ false)
  check_whoami_confirms a n (err x) w off h = cc (check_whoami-idle a n x w off)
  check_whoami_confirms a n (ok who) w off h = (
    who,
    refl,
    unfold check_whoami in ground (arith, eq_iff who.user_id (w.clients a).id),
    unfold check_whoami in ground (arith, eq_iff who.user_id (w.clients a).id),
  )

  module _ (a n : ℕ) (w : World) (on : (w.clients a).enabled ≡ true)
      (idle : (w.clients a).started ≡ false) where
    start_checks :
        let (r, w') = ask_whoami env a w in start env a n w ≡ (ok tt, (check_whoami env a n r w').1)
    unfolding start_inner start
    start_checks = rw (on, idle)

    -- The start of an enabled client that does not run and has a row, when the server rejects its token,
    -- disables the client in memory and in its row, leaves it stopped and leaves no task behind.
    pub start_refused :
        HasRow a w → (ask_whoami env a w).0 ≡ err invalid_token → IsDisabled a w (start env a n w).1
    unfolding check_whoami
    start_refused row e =
        rw (start_checks, e, ask_whoami-asked a w)
          (disable-IsDisabled a w (asked a w) row idle refl)

    -- Any other failure of the two questions.
    unreachable-check_whoami :
        (x : Exc)
        → x ≢ invalid_token
        → check_whoami env a n (err x) (asked a w) ≡ (
            if leb 8 n then disable a (asked a w) else (
              ok tt,
              record w { trace = (asked a w).trace; tasks = start_client a (n + 1) ∷ w.tasks },
            ))
    unfolding check_whoami
    unreachable-check_whoami x ne = ground arith

    -- The start of an enabled client that does not run and has a row, when asking the server fails in any
    -- other way: from try number 8 on it disables the client in memory and in its row, before that it
    -- changes neither the clients nor their table and leaves one task, which has the next try number.
    pub start_unreachable :
        (x : Exc)
        → x ≢ invalid_token
        → HasRow a w
        → (ask_whoami env a w).0 ≡ err x
        → let w' = (start env a n w).1 in
          ((8 ≤ n) × IsDisabled a w w')
          ⊎ ((n < 8)
              × (w'.clients ≡ w.clients)
              × (w'.client_table ≡ w.client_table)
              × (w'.tasks ≡ start_client a (n + 1) ∷ w.tasks))
    start_unreachable x ne row e =
        rw (start_checks, e, ask_whoami-asked a w, unreachable-check_whoami x ne)
          (elim (Bool-cases (leb 8 n)) [
            | inl late ↦
                rw late (inl (ground arith, disable-IsDisabled a w (asked a w) row idle refl))
            | inr early ↦ rw early (inr (ground arith, refl, refl, refl))
          ])

    -- A client that was enabled and stopped, and runs after `start`, was confirmed by the server: `whoami`
    -- answered with the client's own user id, and with no device id that differs from the client's.
    pub start_confirms :
        ((start env a n w).1.clients a).started ≡ true
        → (who : WhoAmI) × ((ask_whoami env a w).0 ≡ ok who)
          × (who.user_id ≡ (w.clients a).id)
          × (device_differs who (w.clients a) ≡ false)
    start_confirms h =
        check_whoami_confirms a n (ask_whoami env a w).0 (asked a w) idle
          (rw (start_checks, ask_whoami-asked a w) at h)
