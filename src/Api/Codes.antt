-- ===== src/Api/Codes.antt =====
-- The status and the errcode of the responses.
use maubot.Base.{◌≡◌, Bool, true, false, arith, is_some, leb, ◌||◌}
use maubot.Api.Responses.{Response, status, errcode}
use maubot.Api.Responses

-- The three refusals of the database explorer that answer 200.
unfoldable pub is_sent_as_ok : Response → Bool
is_sent_as_ok Responses.plugin_has_no_database = true
is_sent_as_ok Responses.unsupported_plugin_database = true
is_sent_as_ok Responses.table_not_found = true
is_sent_as_ok _ = false

-- Every response has an errcode if and only if its status is 400 or more, but for three refusals that
-- have an errcode and are sent with the status 200.
pub status-errcode : (r : Response) → is_some (errcode r) ≡ (leb 400 (status r) || is_sent_as_ok r)
unfolding status errcode is_sent_as_ok
status-errcode r = ground arith
