-- ===== src/Api/Forwarding.antt =====
-- Theorems on the requests that the API passes on to homeservers
-- (maubot/management/api/client_proxy.py).
use maubot.Base.{ℕ, String, false, Option, none, some, [], ◌∷◌, ◌≡◌, default}
use maubot.Base.Text.{append}
use maubot.Base.Exec.{Exc, Result, ok, err, key_error}
use maubot.World.{Client}
use maubot.Api.Responses
use maubot.World.Env.{Env}
use maubot.Client
use maubot.Api.Proxy.{Multidict, Request, Forwarded, Upstream, Reply, Proxying, relay, answer}

-- What the multidict library promises: a key that was removed has no value, a key that was assigned
-- has that value alone, and both leave the other keys as they are.
pub record IsMultidict {M : Type 0} (dict : Multidict M) : Type 0 where
  pub getall-remove : (k : String) (m : M) → dict.getall k (dict.remove k m) ≡ []
  pub getall-remove_other :
      (k l : String) (m : M)
      → dict.same k l ≡ false
      → dict.getall l (dict.remove k m) ≡ dict.getall l m
  pub getall-put : (k v : String) (m : M) → dict.getall k (dict.put k v m) ≡ v ∷ []
  pub getall-put_other :
      (k l v : String) (m : M)
      → dict.same k l ≡ false
      → dict.getall l (dict.put k v m) ≡ dict.getall l m

module _ {H Q : Type 0} (dict : Multidict H) (queries : Multidict Q) where
  -- The request carries the client's token as its only authorization, nothing of the caller's, and
  -- else the headers and parameters of the caller.
  pub record IsOwn (c : Client) (r : Request H Q) (f : Forwarded H Q) : Type 0 where
    pub authorization :
        dict.getall "Authorization" f.headers
        ≡ append "Bearer " (default "None" c.access_token) ∷ []
    pub host : dict.getall "Host" f.headers ≡ []
    pub token : queries.getall "access_token" f.params ≡ []
    pub others :
        (k : String)
        → dict.same "Host" k ≡ false
        → dict.same "Authorization" k ≡ false
        → dict.same "X-Forwarded-For" k ≡ false
        → dict.getall k f.headers ≡ dict.getall k r.headers
    pub params :
        (k : String)
        → queries.same "access_token" k ≡ false
        → queries.getall k f.params ≡ queries.getall k r.query
    pub rest : (f.method ≡ r.method) × (f.body ≡ r.body)

  -- The outcomes of a request, by what `Client.get` found.
  pub data IsGuarded (request : Forwarded H Q → Result (Upstream H)) (r : Request H Q)
      (found : Result (Option ℕ)) (s : Proxying H Q) (reply : Result (Reply H)) (t : Proxying H Q)
      : Type 0 where
    failed :
        (e : Exc)
        → found ≡ err e
        → reply ≡ err e
        → t.sent ≡ s.sent
        → IsGuarded request r found s reply t
    unknown :
        found ≡ ok none
        → reply ≡ ok (answer Responses.client_not_found)
        → t.sent ≡ s.sent
        → IsGuarded request r found s reply t
    hostless :
        (a : ℕ)
        → found ≡ ok (some a)
        → dict.getall "Host" r.headers ≡ []
        → reply ≡ err key_error
        → t.sent ≡ s.sent
        → IsGuarded request r found s reply t
    added :
        (a : ℕ) (f : Forwarded H Q)
        → found ≡ ok (some a)
        → reply ≡ relay dict queries (request f)
        → t.sent ≡ f ∷ s.sent
        → IsOwn (s.world.clients a) r f
        → IsGuarded request r found s reply t
