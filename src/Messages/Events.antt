-- ===== src/Messages/Events.antt =====
-- The events that plugins are given: dispatch_event and get_event of MaubotMatrixClient
-- (maubot/matrix.py).
use maubot.Base.{String, Bool, true, false, Option, none, some, ◌≡◌, refl, if◌then◌else◌}

-- An event of the Matrix library, or a MaubotMessageEvent, which wraps a message. `has_client` is
-- whether its attribute `client` is set, `trimmed` whether the fallback of a reply was cut off its
-- content.
pub data Event : Type 0 where
  message : (body : String) → (trimmed : Bool) → (has_client : Bool) → Event
  maubot_message : (body : String) → (trimmed : Bool) → Event
  encrypted : (ciphertext : String) → (has_client : Bool) → Event
  other : (name : String) → (has_client : Bool) → Event

-- `event.client = self`, which a MaubotMessageEvent has from its construction
unfoldable pub set_client : Event → Event
set_client (message body trimmed _) = message body trimmed true
set_client (maubot_message body trimmed) = maubot_message body trimmed
set_client (encrypted ciphertext _) = encrypted ciphertext true
set_client (other name _) = other name true

-- dispatch_event, up to the library's own
unfoldable pub dispatch_event : Event → (is_internal : Bool) → Event
unfolding set_client
dispatch_event (message body trimmed _) is_internal = maubot_message body trimmed
dispatch_event event is_internal = if is_internal then event else set_client event

-- The end of get_event.
unfoldable pub prepare : Event → Event
unfolding set_client
prepare (message body _ _) = maubot_message body true
prepare (maubot_message body _) = maubot_message body true
prepare event = set_client event

-- get_event, from the library's answer; `decrypt` gives none for a DecryptionError, and `none` is
-- the return of None.
unfoldable pub get_event : Option (String → Option Event) → Event → Option Event
unfolding prepare
get_event (some decrypt) (encrypted ciphertext has_client) = elim (decrypt ciphertext) [
  | none ↦ none
  | some event ↦ some (prepare event)
]
get_event crypto event = some (prepare event)

-- An event as a plugin may use it: a message is a MaubotMessageEvent, any other has its client.
abbrev pub IsUsable : Event → Type 0
IsUsable (message _ _ _) = ⊥
IsUsable (maubot_message _ _) = Unit {0}
IsUsable (encrypted _ has_client) = has_client ≡ true
IsUsable (other _ has_client) = has_client ≡ true

abbrev IsTrimmed : Event → Type 0
IsTrimmed (maubot_message _ trimmed) = trimmed ≡ true
IsTrimmed _ = Unit {0}

prepare-IsUsable : (event : Event) → IsUsable (prepare event) × IsTrimmed (prepare event)
unfolding prepare set_client
prepare-IsUsable (message body _ _) = (tt, refl)
prepare-IsUsable (maubot_message body _) = (tt, refl)
prepare-IsUsable (encrypted ciphertext _) = (refl, tt)
prepare-IsUsable (other name _) = (refl, tt)

dispatch_event-IsUsable : (event : Event) → IsUsable (dispatch_event event false)
unfolding dispatch_event set_client
dispatch_event-IsUsable (message body trimmed _) = tt
dispatch_event-IsUsable (maubot_message body _) = tt
dispatch_event-IsUsable (encrypted ciphertext _) = refl
dispatch_event-IsUsable (other name _) = refl

-- The one case in which there is no event.
abbrev pub IsUndecryptable : Option (String → Option Event) → Event → Type 0
IsUndecryptable (some decrypt) (encrypted ciphertext _) = decrypt ciphertext ≡ none
IsUndecryptable _ _ = ⊥

-- What get_event returns.
abbrev pub IsAnswer : Option (String → Option Event) → Event → Option Event → Type 0
IsAnswer crypto event none = IsUndecryptable crypto event
IsAnswer crypto event (some got) = IsUsable got × IsTrimmed got

decrypted-IsAnswer :
    (decrypt : String → Option Event) (ciphertext : String) (has_client : Bool)
    (plain : Option Event)
    → decrypt ciphertext ≡ plain
    → IsAnswer
        (some decrypt)
        (encrypted ciphertext has_client)
        (elim plain [ none ↦ none | some event ↦ some (prepare event) ])
decrypted-IsAnswer decrypt ciphertext has_client none e = e
decrypted-IsAnswer decrypt ciphertext has_client (some event) e = prepare-IsUsable event

get_event-IsAnswer :
    (crypto : Option (String → Option Event)) (event : Event)
    → IsAnswer crypto event (get_event crypto event)
unfolding get_event
get_event-IsAnswer (some decrypt) (encrypted ciphertext has_client) =
    decrypted-IsAnswer decrypt ciphertext has_client (decrypt ciphertext) refl
get_event-IsAnswer (some decrypt) (message b t h) = prepare-IsUsable (message b t h)
get_event-IsAnswer (some decrypt) (maubot_message b t) = prepare-IsUsable (maubot_message b t)
get_event-IsAnswer (some decrypt) (other n h) = prepare-IsUsable (other n h)
get_event-IsAnswer none event = prepare-IsUsable event

-- An event that reaches a plugin, through a sync or through get_event, is a MaubotMessageEvent if it is
-- a message, and has its client otherwise; one from get_event is without the fallback of a reply too,
-- and there is none only where the event is encrypted and its decryption fails.
pub events-AreUsable :
    (crypto : Option (String → Option Event)) (event : Event)
    → IsUsable (dispatch_event event false) × IsAnswer crypto event (get_event crypto event)
events-AreUsable crypto event = (dispatch_event-IsUsable event, get_event-IsAnswer crypto event)
