-- ===== src/Standalone/Resuming.antt =====
-- Theorems on the sync token and the filter that the standalone program keeps
-- (maubot/standalone/database.py).
use maubot.Base.{List, [], ◌∷◌, String, ◌≡◌, refl, arith, Option, none, some, eq_refl, ◌∙◌}
use maubot.Base.Dict.{Dict, lookup, lookup-insert}
use maubot.Standalone.Batches.{
  NextBatch, Row, load_row, load, update_row, put_filter_id, put_next_batch,
}

-- What the program writes between two starts.
pub data Write : Type 0 where
  filter batch : String → Write

abbrev pub put : Write → NextBatch × Dict Row → NextBatch × Dict Row
put (filter id) s = put_filter_id id s
put (batch token) s = put_next_batch token s

abbrev pub put_all : List Write → NextBatch × Dict Row → NextBatch × Dict Row
put_all [] s = s
put_all (w ∷ ws) s = put_all ws (put w s)

-- The row of the user says what the object says.
abbrev Agrees : NextBatch × Dict Row → Type 0
Agrees (nb, rows) =
    lookup nb.user_id rows ≡ some (record { next_batch = nb.next_batch; filter_id = nb.filter_id })

load_row-Agrees :
    (user_id : String) (rows : Dict Row) (found : Option Row)
    → lookup user_id rows ≡ found
    → Agrees (load_row user_id rows found)
unfolding load_row
load_row-Agrees user_id rows (some row) e = e
load_row-Agrees user_id rows none e = ground (
  arith,
  lookup-insert user_id user_id (record { next_batch = ""; filter_id = "" }) rows,
  eq_refl user_id,
)

lookup-update_row :
    (user_id : String) (change : Row → Row) (rows : Dict Row) (row : Row)
    → lookup user_id rows ≡ some row
    → lookup user_id (update_row user_id change rows) ≡ some (change row)
unfolding update_row
lookup-update_row user_id change rows row e =
    ground (arith, lookup-insert user_id user_id (change row) rows, eq_refl user_id)

put-Agrees : (w : Write) (s : NextBatch × Dict Row) → Agrees s → Agrees (put w s)
unfolding put_filter_id put_next_batch
put-Agrees (filter id) (nb, rows) h = lookup-update_row nb.user_id _ rows _ h
put-Agrees (batch token) (nb, rows) h = lookup-update_row nb.user_id _ rows _ h

put-user_id : (w : Write) (s : NextBatch × Dict Row) → (put w s).0.user_id ≡ s.0.user_id
unfolding put_filter_id put_next_batch
put-user_id (filter id) (nb, rows) = refl
put-user_id (batch token) (nb, rows) = refl

put_all-Agrees :
    (ws : List Write) (s : NextBatch × Dict Row)
    → Agrees s
    → Agrees (put_all ws s) × ((put_all ws s).0.user_id ≡ s.0.user_id)
put_all-Agrees [] s h = (h, refl)
put_all-Agrees (w ∷ ws) s h =
    let (agrees, same) = put_all-Agrees ws (put w s) (put-Agrees w s h) in
    (agrees, same ∙ put-user_id w s)

load_again :
    (user_id : String) (s : NextBatch × Dict Row)
    → Agrees s
    → s.0.user_id ≡ user_id
    → load user_id s.1 ≡ s
unfolding load load_row
load_again user_id (nb, rows) h e = rw (← e) (rw h refl)

load-Agrees : (user_id : String) (rows : Dict Row) → Agrees (load user_id rows)
unfolding load
load-Agrees user_id rows = load_row-Agrees user_id rows (lookup user_id rows) refl

load_row-user_id :
    (user_id : String) (rows : Dict Row) (found : Option Row)
    → (load_row user_id rows found).0.user_id ≡ user_id
unfolding load_row
load_row-user_id user_id rows (some row) = refl
load_row-user_id user_id rows none = refl

load-user_id : (user_id : String) (rows : Dict Row) → (load user_id rows).0.user_id ≡ user_id
unfolding load
load-user_id user_id rows = load_row-user_id user_id rows (lookup user_id rows)

-- What the program has stored when it ends is what the next start loads: after any writes of tokens
-- and filters, a new object for the same user is equal to the old one, and the table stays.
pub load-put_all :
    (user_id : String) (rows : Dict Row) (ws : List Write)
    → let (nb, rows') = put_all ws (load user_id rows) in load user_id rows' ≡ (nb, rows')
load-put_all user_id rows ws =
    let first = load user_id rows in
    let (agrees, same) = put_all-Agrees ws first (load-Agrees user_id rows) in
    load_again user_id (put_all ws first) agrees (same ∙ load-user_id user_id rows)
