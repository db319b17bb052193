-- ===== src/Examples/Forwarding.antt =====
-- The theorem on requests that are passed on to homeservers, at maps that are lists of pairs.
use maubot.Base.{if◌then◌else◌, ◌==◌, String, true, false, some, none, List, [], ◌∷◌}
use maubot.Base.Exec.{Result, ok}
use maubot.World.Env.{Env}
use maubot.Client
use maubot.Api.Proxy.{Multidict, Request, Forwarded, Upstream, Proxying}
use maubot.Examples.{env, world, client, loader, instance_with, confirmed}

abbrev Pairs : Type 0
Pairs = List (String × String)

unfoldable getall : String → Pairs → List String
getall k [] = []
getall k ((l, v) ∷ m) = let rest = getall k m in if k == l then v ∷ rest else rest

unfoldable remove : String → Pairs → Pairs
remove k [] = []
remove k ((l, v) ∷ m) = let rest = remove k m in if k == l then rest else (l, v) ∷ rest

abbrev pairs : Multidict Pairs
pairs = record {
  same = λ k l. k == l;
  getall = getall;
  remove = remove;
  put = λ k v m. (k, v) ∷ remove k m;
}

-- A call with the caller's own token in both places, to a homeserver that answers in two chunks.
abbrev online : Env
online = env (ok confirmed)

abbrev call : Request Pairs Pairs
call = record {
  method = "GET";
  id = "@bot:hs";
  path = "_matrix/client/versions";
  query = ("access_token", "admin") ∷ ("limit", "10") ∷ [];
  headers = ("Host", "localhost") ∷ ("Authorization", "Bearer admin") ∷ [];
  peername = some ("127.0.0.1", "40000");
  body = "";
}

abbrev start : Proxying Pairs Pairs
start = record {
  world = world (client true []) (instance_with none none false) (loader []);
  sent = [];
}

abbrev homeserver : Forwarded Pairs Pairs → Result (Upstream Pairs)
homeserver f = ok (record { status = 200; headers = []; content = "one" ∷ "two" ∷ [] })
