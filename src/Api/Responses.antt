-- ===== src/Api/Responses.antt =====
-- maubot/management/api/responses.py: the responses, with the HTTP status and the errcode of
-- each. Of the JSON bodies only what the callers pass in is kept.
use maubot.Base.{ℕ, String, Bool, true, false, Option, none, some}

pub data Response : Type 0 where
  body_not_json plugin_type_required primary_user_required : Response
  bad_client_access_token bad_client_access_details bad_client_connection_details : Response
  mxid_mismatch device_id_mismatch : String → Response
  pid_mismatch username_or_password_missing query_missing : Response
  sql_error sql_operational_error sql_integrity_error : Response
  bad_auth no_token invalid_token : Response
  plugin_not_found client_not_found primary_user_not_found instance_not_found : Response
  plugin_type_not_found path_not_found server_not_found registration_secret_not_found : Response
  registration_no_sso sso_not_supported : Response
  plugin_has_no_database unsupported_plugin_database sqlalchemy_not_installed : Response
  table_not_found method_not_allowed user_exists plugin_exists plugin_in_use : Response
  client_in_use plugin_import_error plugin_reload_error internal_server_error : Response
  invalid_server unsupported_plugin_loader client_has_keys internal_crypto_error : Response
  not_implemented ok_response deleted found created : Response
  updated : Bool → Response
  logged_in : String → Response
  pong : String → Response

-- The default of `web.json_response` is 200.
unfoldable pub status : Response → ℕ
status no_token = 401
status invalid_token = 401
status bad_auth = 401
status plugin_not_found = 404
status client_not_found = 404
status primary_user_not_found = 404
status instance_not_found = 404
status plugin_type_not_found = 404
status path_not_found = 404
status server_not_found = 404
status registration_secret_not_found = 404
status sso_not_supported = 403
status plugin_has_no_database = 200
status unsupported_plugin_database = 200
status sqlalchemy_not_installed = 501
status table_not_found = 200
status method_not_allowed = 405
status user_exists = 409
status plugin_exists = 409
status client_has_keys = 409
status plugin_in_use = 412
status client_in_use = 412
status plugin_reload_error = 500
status internal_server_error = 500
status invalid_server = 500
status internal_crypto_error = 500
status not_implemented = 501
status ok_response = 200
status deleted = 204
status found = 200
status created = 201
status (updated is_login) = elim is_login [ true ↦ 202 | false ↦ 200 ]
status (logged_in token) = 200
status (pong user) = 200
status _ = 400

-- The field "errcode" of the body, where there is one.
unfoldable pub errcode : Response → Option String
errcode body_not_json = some "body_not_json"
errcode plugin_type_required = some "plugin_type_required"
errcode primary_user_required = some "primary_user_required"
errcode bad_client_access_token = some "bad_client_access_token"
errcode bad_client_access_details = some "bad_client_access_details"
errcode bad_client_connection_details = some "bad_client_connection_details"
errcode (mxid_mismatch who) = some "mxid_mismatch"
errcode (device_id_mismatch device) = some "mxid_mismatch"
errcode pid_mismatch = some "pid_mismatch"
errcode username_or_password_missing = some "username_or_password_missing"
errcode query_missing = some "query_missing"
errcode sql_error = some "sql_error"
errcode sql_operational_error = some "sql_operational_error"
errcode sql_integrity_error = some "sql_integrity_error"
errcode bad_auth = some "invalid_auth"
errcode no_token = some "auth_token_missing"
errcode invalid_token = some "auth_token_invalid"
errcode plugin_not_found = some "plugin_not_found"
errcode client_not_found = some "client_not_found"
errcode primary_user_not_found = some "primary_user_not_found"
errcode instance_not_found = some "instance_not_found"
errcode plugin_type_not_found = some "plugin_type_not_found"
errcode path_not_found = some "resource_not_found"
errcode server_not_found = some "server_not_found"
errcode registration_secret_not_found = some "registration_secret_not_found"
errcode registration_no_sso = some "registration_no_sso"
errcode sso_not_supported = some "sso_not_supported"
errcode plugin_has_no_database = some "plugin_has_no_database"
errcode unsupported_plugin_database = some "unsupported_plugin_database"
errcode sqlalchemy_not_installed = some "unsupported_plugin_database"
errcode table_not_found = some "table_not_found"
errcode method_not_allowed = some "method_not_allowed"
errcode user_exists = some "user_exists"
errcode plugin_exists = some "plugin_exists"
errcode plugin_in_use = some "plugin_in_use"
errcode client_in_use = some "client_in_use"
errcode plugin_import_error = some "plugin_invalid"
errcode plugin_reload_error = some "plugin_reload_fail"
errcode internal_server_error = some "internal_server_error"
errcode invalid_server = some "invalid_server"
errcode unsupported_plugin_loader = some "unsupported_plugin_loader"
errcode client_has_keys = some "client_has_keys"
errcode internal_crypto_error = some "internal_crypto_error"
errcode not_implemented = some "not_implemented"
errcode _ = none
