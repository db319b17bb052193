-- ===== src/Api/Proxy.antt =====
-- maubot/management/api/client_proxy.py: requests that are passed on to a client's homeserver.
use maubot.Base.{
  if◌then◌else◌, String, Bool, true, false, Option, none, some, List, ◌∷◌, is_empty, default, ℕ,
}
use maubot.Base.Text.{append}
use maubot.Base.Exec.{Exec, Result, ok, err, key_error}
use maubot.World.{World, Client}
use maubot.World.Env.{Env}
use maubot.Client
use maubot.Api.Responses.{Response}
use maubot.Api.Responses

-- The multidict library: maps from a key to several values. `same` is its comparison of keys, which
-- looks at upper and lower case for a query and not for headers; `remove` is `del` on a key that is
-- there, `put` an assignment.
pub record Multidict (M : Type 0) : Type 0 where
  pub same : String → String → Bool
  pub getall : String → M → List String
  pub remove : String → M → M
  pub put : String → String → M → M

-- What the handler reads of a request; `peername` is the host and the port as a text.
pub record Request (H Q : Type 0) : Type 0 where
  pub method : String
  pub id : String
  pub path : String
  pub query : Q
  pub headers : H
  pub peername : Option (String × String)
  pub body : String

-- The call of http.request.
pub record Forwarded (H Q : Type 0) : Type 0 where
  pub method : String
  pub url : String
  pub headers : H
  pub params : Q
  pub body : String

-- The answer of the homeserver, with the chunks that its content is read in.
pub record Upstream (H : Type 0) : Type 0 where
  pub status : ℕ
  pub headers : H
  pub content : List String

-- What the client of the API gets, and the state with the requests that were passed on, the last
-- one first.
pub data Reply (H : Type 0) : Type 0 where
  answer : Response → Reply H
  stream : Upstream H → Reply H

pub record Proxying (H Q : Type 0) : Type 0 where
  pub world : World
  pub sent : List (Forwarded H Q)

module _ {H Q : Type 0} (dict : Multidict H) (queries : Multidict Q) where
  abbrev contains : String → H → Bool
  contains key headers = if is_empty (dict.getall key headers) then false else true

  -- `try: del query["access_token"]`
  unfoldable pub without_token : Q → Q
  without_token query =
      if is_empty (queries.getall "access_token" query)
      then query
      else queries.remove "access_token" query

  -- The client's own authorization in place of the caller's.
  unfoldable pub authorize : Option String → H → H
  authorize token headers =
      dict.put "Authorization" (append "Bearer " (default "None" token)) headers

  unfoldable pub name_peer : Option (String × String) → H → H
  name_peer none headers = headers
  name_peer (some (host, port)) headers =
      dict.put "X-Forwarded-For" (append host (append ":" port)) headers

  unfoldable pub forwarded_for : Option (String × String) → H → H
  unfolding name_peer
  forwarded_for peername headers =
      if contains "X-Forwarded-For" headers then headers else name_peer peername headers

  unfoldable pub request_for : Client → Request H Q → Forwarded H Q
  unfolding without_token authorize forwarded_for
  request_for c r = record {
    method = r.method;
    url = append (default "None" c.homeserver) (append "/" r.path);
    headers = forwarded_for r.peername (authorize c.access_token (dict.remove "Host" r.headers));
    params = without_token r.query;
    body = r.body;
  }

  -- The homeserver's answer, chunk by chunk, or the exception that the connection raised.
  unfoldable pub relay : Result (Upstream H) → Result (Reply H)
  relay (ok response) = ok (stream response)
  relay (err e) = err e

  module _ (env : Env) (request : Forwarded H Q → Result (Upstream H)) where
    unfoldable pub pass_on : Forwarded H Q → Exec (Proxying H Q) (Reply H)
    unfolding relay
    pass_on f s = (relay (request f), record s { sent = f ∷ s.sent })

    -- The handler behind `Client.get`; `del headers["Host"]` raises when there is no such header.
    unfoldable pub answer_for : Request H Q → Result (Option ℕ) → Exec (Proxying H Q) (Reply H)
    unfolding pass_on request_for
    answer_for r (err e) s = (err e, s)
    answer_for r (ok none) s = (ok (answer Responses.client_not_found), s)
    answer_for r (ok (some a)) s =
        if contains "Host" r.headers
        then pass_on (request_for (s.world.clients a) r) s
        else (err key_error, s)

    unfoldable pub proxy : Request H Q → Exec (Proxying H Q) (Reply H)
    unfolding answer_for
    proxy r s =
        let (found, w) = Client.get env r.id none none none s.world in
        answer_for r found (record s { world = w })
