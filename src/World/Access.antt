-- ===== src/World/Access.antt =====
-- Reads and writes of one object, and the statements of db/client.py and db/instance.py.
use maubot.Base.{
  ℕ, if◌then◌else◌, Bool, true, false, ◌&&◌, ◌||◌, ◌==◌, ◌≡◌, refl, Option, none, some, nat_eq,
  bool_eq, arith, Bool-cases, inl, inr,
}
use maubot.Base.Rules.{eq_sound}
use maubot.Base.Dict.{insert, contains, update}
use maubot.World.{World, Client, Instance, InstanceRow, Loader, DatabaseEngine, sqlite, postgres}

abbrev pub set_client : ℕ → Client → World → World
set_client a c w = record w { clients = update w.clients a c }

abbrev pub set_instance : ℕ → Instance → World → World
set_instance a i w = record w { instances = update w.instances a i }

abbrev pub set_loader : ℕ → Loader → World → World
set_loader a l w = record w { loaders = update w.loaders a l }

-- SyncStore `Client.update`: UPDATE client SET … WHERE id=$1
abbrev pub save_client : ℕ → World → World
save_client a w =
    let r = (w.clients a).row in
    record w {
      client_table =
          if contains r.id w.client_table then insert r.id r w.client_table else w.client_table;
    }

-- `Instance.update`: UPDATE instance SET … WHERE id=$1
abbrev pub save_instance : ℕ → World → World
save_instance a w =
    let r = (w.instances a).row in
    record w {
      instance_table =
          if contains r.id w.instance_table
          then insert r.id r w.instance_table
          else w.instance_table;
    }

engine_equal : Option DatabaseEngine → Option DatabaseEngine → Bool
engine_equal none none = true
engine_equal (some sqlite) (some sqlite) = true
engine_equal (some postgres) (some postgres) = true
engine_equal _ _ = false

-- `__eq__` of the dataclass Instance
row_equal : InstanceRow → InstanceRow → Bool
unfolding engine_equal
row_equal r s =
    (r.id == s.id)
    && ((r.type == s.type)
        && (bool_eq r.enabled s.enabled
            && ((r.primary_user == s.primary_user)
                && ((r.config_str == s.config_str)
                    && engine_equal r.database_engine s.database_engine))))

-- What a `set` takes for an object: itself, or one that is equal to it.
unfoldable pub equal_to : ℕ → (ℕ → Instance) → ℕ → Bool
unfolding row_equal
equal_to a instances b = nat_eq b a || row_equal (instances b).row (instances a).row

pub equal_to_self : (a : ℕ) (instances : ℕ → Instance) → equal_to a instances a ≡ true
unfolding equal_to
equal_to_self a instances = ground arith

-- Equal objects have the same id.
pub equal_to-id :
    (a b : ℕ) (f : ℕ → Instance) → ((f b).id ≡ (f a).id → b ≡ a) → equal_to a f b ≡ nat_eq b a
unfolding equal_to row_equal
equal_to-id a b f alone = elim (Bool-cases (nat_eq b a)) [
  | inl it ↦ rw it refl
  | inr other ↦ ground (arith, eq_sound (f b).id (f a).id, alone)
]
