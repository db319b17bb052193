-- ===== src/Instance/Every.antt =====
-- PluginInstance.all of maubot/instance.py: an object for every row of the table.
use maubot.Base.{
  ℕ, String, Option, none, some, List, [], ◌∷◌, ◌≡◌, refl, arith, eq_iff, ◌∙◌, subst, sym,
}
use maubot.Base.Dict.{Dict, lookup, lookup-insert}
use maubot.Base.Exec.{Exec, Result, ok, pure, gets, ◌>>=◌, ◌>>◌}
use maubot.World.{World, InstanceRow}
use maubot.Instance.{allocate, postinit}

-- One round of the loop: the object of the cache, or a new one.
unfoldable pub object_of : String → InstanceRow → Exec World ℕ
object_of instance_id r = do
  hit ← gets (λ w. lookup instance_id w.instance_cache)
  elim hit [ some a ↦ pure a | none ↦ (do a ← allocate r; postinit a; pure a) ]

unfoldable pub all_of : Dict InstanceRow → Exec World (List ℕ)
unfolding object_of
all_of [] = pure []
all_of ((instance_id, r) ∷ rows) = do
  a ← object_of instance_id r
  rest ← all_of rows
  pure (a ∷ rest)

-- `PluginInstance.all()`
unfoldable pub all : Exec World (List ℕ)
unfolding all_of
all = do rows ← gets (λ w. w.instance_table); all_of rows

-- The row stands under its id.
abbrev pub AreKeyed : Dict InstanceRow → Type 0
AreKeyed [] = Unit {0}
AreKeyed ((id, r) ∷ rows) = (r.id ≡ id) × AreKeyed rows

-- The objects of some rows are those of the cache.
abbrev pub AreCached : World → Dict InstanceRow → List ℕ → Type 0
AreCached w [] [] = Unit {0}
AreCached w [] (a ∷ bs) = ⊥
AreCached w ((id, r) ∷ rows) [] = ⊥
AreCached w ((id, r) ∷ rows) (a ∷ bs) = (lookup id w.instance_cache ≡ some a) × AreCached w rows bs

-- What is cached stays.
abbrev Keeps : World → World → Type 0
Keeps w w' =
    (j : String) (a : ℕ) → lookup j w.instance_cache ≡ some a → lookup j w'.instance_cache ≡ some a

object_of-Keeps :
    (id : String) (r : InstanceRow) (w : World) (hit : Option ℕ)
    → lookup id w.instance_cache ≡ hit
    → r.id ≡ id
    → (a : ℕ) × ((object_of id r w).0 ≡ ok a)
      × (lookup id (object_of id r w).1.instance_cache ≡ some a)
      × Keeps w (object_of id r w).1
      × ((object_of id r w).1.instance_table ≡ w.instance_table)
unfolding object_of postinit
object_of-Keeps id r w (some a) e k =
    (a, ground arith, ground arith, λ j b h. ground arith, ground arith)
object_of-Keeps id r w none e k = (
  w.next_instance,
  ground arith,
  ground (arith, lookup-insert r.id id w.next_instance w.instance_cache, eq_iff r.id id),
  λ j b h. ground (arith, lookup-insert r.id j w.next_instance w.instance_cache, eq_iff r.id j),
  ground arith,
)

Keeps-AreCached :
    (w w' : World) (rows : Dict InstanceRow) (bs : List ℕ)
    → Keeps w w'
    → AreCached w rows bs
    → AreCached w' rows bs
Keeps-AreCached w w' [] [] keeps h = h
Keeps-AreCached w w' [] (b ∷ bs) keeps h = h
Keeps-AreCached w w' ((id, r) ∷ rows) [] keeps h = h
Keeps-AreCached w w' ((id, r) ∷ rows) (b ∷ bs) keeps (here, h) =
    (keeps id b here, Keeps-AreCached w w' rows bs keeps h)

>>=-ok :
    {A B : Type 0} (m : Exec World A) (f : A → Exec World B) (w : World) (a : A)
    → (m w).0 ≡ ok a
    → (m >>= f) w ≡ f a (m w).1
>>=-ok m f w a e = rw e refl

all_of-AreCached :
    (rows : Dict InstanceRow) (w : World)
    → AreKeyed rows
    → (bs : List ℕ) × ((all_of rows w).0 ≡ ok bs)
      × AreCached (all_of rows w).1 rows bs
      × Keeps w (all_of rows w).1
      × ((all_of rows w).1.instance_table ≡ w.instance_table)
unfolding all_of
all_of-AreCached [] w h = ([], refl, tt, λ j b found. found, refl)
all_of-AreCached ((id, r) ∷ rows) w (k, h) =
    let (a, found, here, keeps, table) =
      object_of-Keeps id r w (lookup id w.instance_cache) refl k in
    let w₁ = (object_of id r w).1 in
    let (bs, others, cached, keeps', table') = all_of-AreCached rows w₁ h in
    let run : all_of ((id, r) ∷ rows) w ≡ (ok (a ∷ bs), (all_of rows w₁).1) =
      >>=-ok (object_of id r) _ w a found
      ∙ >>=-ok (all_of rows) (λ rest. pure (a ∷ rest)) w₁ bs others in
    (
      a ∷ bs,
      rw run refl,
      subst (λ (o : Result (List ℕ) × World). AreCached o.1 ((id, r) ∷ rows) (a ∷ bs)) (sym run)
          (keeps' id a here, cached),
      subst (λ (o : Result (List ℕ) × World). Keeps w o.1) (sym run)
          (λ j b hit. keeps' j b (keeps j b hit)),
      rw run (table' ∙ table),
    )

-- Objects that are all cached are given again, and nothing changes.
all_of-again :
    (rows : Dict InstanceRow) (bs : List ℕ) (w : World)
    → AreCached w rows bs
    → all_of rows w ≡ (ok bs, w)
unfolding all_of object_of
all_of-again [] [] w h = refl
all_of-again [] (b ∷ bs) w h = absurd h
all_of-again ((id, r) ∷ rows) [] w h = absurd h
all_of-again ((id, r) ∷ rows) (b ∷ bs) w (here, h) = ground (arith, all_of-again rows bs w h)

-- `all` gives one object for each row of the table and leaves the table: the object that the cache
-- has for the row's id from then on, so that a second `all` gives the same objects and changes
-- nothing. The rows stand under their ids.
pub all-AreCached :
    (w : World)
    → AreKeyed w.instance_table
    → let w' = (all w).1 in
      (bs : List ℕ) × ((all w).0 ≡ ok bs)
      × AreCached w' w.instance_table bs
      × (w'.instance_table ≡ w.instance_table)
      × (all w' ≡ (ok bs, w'))
unfolding all
all-AreCached w keyed =
    let (bs, given, cached, keeps, table) = all_of-AreCached w.instance_table w keyed in
    let w' = (all_of w.instance_table w).1 in
    (bs, given, cached, table, rw table (all_of-again w.instance_table bs w' cached))
