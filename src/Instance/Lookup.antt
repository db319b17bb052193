-- ===== src/Instance/Lookup.antt =====
-- `PluginInstance.get`: one object for each id.
use maubot.Base.{ℕ, ◌≡◌, String, Option, some, arith, eq_refl, inl, inr, Option-cases}
use maubot.Base.Dict.{lookup, lookup-insert}
use maubot.Base.Exec.{ok}
use maubot.World.{World, InstanceRow}
use maubot.Instance

-- The rows of the table stand under their ids.
abbrev pub IsKeyed : World → Type 0
IsKeyed w = (id : String) (r : InstanceRow) → lookup id w.instance_table ≡ some r → r.id ≡ id

get_cached :
    (id : String) (a : ℕ) (w : World) (t u : Option String)
    → lookup id w.instance_cache ≡ some a
    → Instance.get id t u w ≡ (ok (some a), w)
unfolding Instance.get
get_cached id a w t u hit = ground arith

get-caches :
    (id : String) (a : ℕ) (w : World) (t u : Option String)
    → IsKeyed w
    → (Instance.get id t u w).0 ≡ ok (some a)
    → lookup id (Instance.get id t u w).1.instance_cache ≡ some a
unfolding Instance.get Instance.postinit
get-caches id a w t u keyed found = elim (Option-cases (lookup id w.instance_table)) [
  | inl absent ↦ ground (arith, lookup-insert id id w.next_instance w.instance_cache, eq_refl id)
  | inr (r, there) ↦
      ground
        (arith, keyed id r there, lookup-insert id id w.next_instance w.instance_cache, eq_refl id)
]

-- A lookup that returned an instance makes every later lookup of this id return the same object and
-- change nothing, whatever type and user it is given, where rows stand under their ids.
pub get_again :
    (id : String) (a : ℕ) (w : World) (t u t' u' : Option String)
    → IsKeyed w
    → (Instance.get id t u w).0 ≡ ok (some a)
    → let w' = (Instance.get id t u w).1 in Instance.get id t' u' w' ≡ (ok (some a), w')
get_again id a w t u t' u' keyed found =
    get_cached id a (Instance.get id t u w).1 t' u' (get-caches id a w t u keyed found)
