-- ===== src/QpsServer/Status.antt =====
-- The status codes of qps-http-app-server/qps-http-app-server.go and their texts.
use Prim.Native.String.{String}
use wander.Base.{ℕ, List, [], ◌∷◌}

abbrev pub status_continue : ℕ
status_continue = 100

abbrev pub status_switching_protocols : ℕ
status_switching_protocols = 101

abbrev pub status_ok : ℕ
status_ok = 200

abbrev pub status_created : ℕ
status_created = 201

abbrev pub status_accepted : ℕ
status_accepted = 202

abbrev pub status_non_authoritative_info : ℕ
status_non_authoritative_info = 203

abbrev pub status_no_content : ℕ
status_no_content = 204

abbrev pub status_reset_content : ℕ
status_reset_content = 205

abbrev pub status_partial_content : ℕ
status_partial_content = 206

abbrev pub status_multiple_choices : ℕ
status_multiple_choices = 300

abbrev pub status_moved_permanently : ℕ
status_moved_permanently = 301

abbrev pub status_found : ℕ
status_found = 302

abbrev pub status_see_other : ℕ
status_see_other = 303

abbrev pub status_not_modified : ℕ
status_not_modified = 304

abbrev pub status_use_proxy : ℕ
status_use_proxy = 305

abbrev pub status_temporary_redirect : ℕ
status_temporary_redirect = 307

abbrev pub status_bad_request : ℕ
status_bad_request = 400

abbrev pub status_unauthorized : ℕ
status_unauthorized = 401

abbrev pub status_payment_required : ℕ
status_payment_required = 402

abbrev pub status_forbidden : ℕ
status_forbidden = 403

abbrev pub status_not_found : ℕ
status_not_found = 404

abbrev pub status_method_not_allowed : ℕ
status_method_not_allowed = 405

abbrev pub status_not_acceptable : ℕ
status_not_acceptable = 406

abbrev pub status_proxy_auth_required : ℕ
status_proxy_auth_required = 407

abbrev pub status_request_timeout : ℕ
status_request_timeout = 408

abbrev pub status_conflict : ℕ
status_conflict = 409

abbrev pub status_gone : ℕ
status_gone = 410

abbrev pub status_length_required : ℕ
status_length_required = 411

abbrev pub status_precondition_failed : ℕ
status_precondition_failed = 412

abbrev pub status_request_entity_too_large : ℕ
status_request_entity_too_large = 413

abbrev pub status_request_uri_too_long : ℕ
status_request_uri_too_long = 414

abbrev pub status_unsupported_media_type : ℕ
status_unsupported_media_type = 415

abbrev pub status_requested_range_not_satisfiable : ℕ
status_requested_range_not_satisfiable = 416

abbrev pub status_expectation_failed : ℕ
status_expectation_failed = 417

abbrev pub status_teapot : ℕ
status_teapot = 418

abbrev pub status_client_disconnected : ℕ
status_client_disconnected = 499

abbrev pub status_internal_server_error : ℕ
status_internal_server_error = 500

abbrev pub status_not_implemented : ℕ
status_not_implemented = 501

abbrev pub status_bad_gateway : ℕ
status_bad_gateway = 502

abbrev pub status_service_unavailable : ℕ
status_service_unavailable = 503

abbrev pub status_gateway_timeout : ℕ
status_gateway_timeout = 504

abbrev pub status_http_version_not_supported : ℕ
status_http_version_not_supported = 505

-- `httpStatusText`
abbrev pub http_status_text : List (ℕ × String)
http_status_text =
    (status_continue, " 100 Continue")
    ∷ (status_switching_protocols, " 101 Switching Protocols")
    ∷ (status_ok, " 200 OK")
    ∷ (status_created, " 201 Created")
    ∷ (status_accepted, " 202 Accepted")
    ∷ (status_non_authoritative_info, " 203 Non Authoritative Info")
    ∷ (status_no_content, " 204 No Content")
    ∷ (status_reset_content, " 205 Reset Content")
    ∷ (status_partial_content, " 206 Partial Content")
    ∷ (status_multiple_choices, " 300 Multiple Choices")
    ∷ (status_moved_permanently, " 301 Moved Permanently")
    ∷ (status_found, " 302 Found")
    ∷ (status_see_other, " 303 See Other")
    ∷ (status_not_modified, " 304 NotModified")
    ∷ (status_use_proxy, " 305 Use Proxy")
    ∷ (status_temporary_redirect, " 307 Temporary Redirect")
    ∷ (status_bad_request, " 400 Bad Request")
    ∷ (status_unauthorized, " 401 Unauthorized")
    ∷ (status_payment_required, " 402 Payment Required")
    ∷ (status_forbidden, " 403 Forbidden")
    ∷ (status_not_found, " 404 Not Found")
    ∷ (status_method_not_allowed, " 405 Method NotAllowed")
    ∷ (status_not_acceptable, " 406 Not Acceptable")
    ∷ (status_proxy_auth_required, " 407 Proxy Auth Required")
    ∷ (status_request_timeout, " 408 Request Timeout")
    ∷ (status_conflict, " 409 Conflict")
    ∷ (status_gone, " 410 Gone")
    ∷ (status_length_required, " 411 Length Required")
    ∷ (status_precondition_failed, " 412 Precondition Failed")
    ∷ (status_request_entity_too_large, " 413 Request Entity Too Large")
    ∷ (status_request_uri_too_long, " 414 Request URI Too Long")
    ∷ (status_unsupported_media_type, " 415 Unsupported Media Type")
    ∷ (status_requested_range_not_satisfiable, " 416 Requested Range Not Satisfiable")
    ∷ (status_expectation_failed, " 417 Expectation Failed")
    ∷ (status_teapot, " 418 Teapot")
    ∷ (status_client_disconnected, " 499 Client Disconnected")
    ∷ (status_internal_server_error, " 500 Internal Server Error")
    ∷ (status_not_implemented, " 501 Not Implemented")
    ∷ (status_bad_gateway, " 502 Bad Gateway")
    ∷ (status_service_unavailable, " 503 Service Unavailable")
    ∷ (status_gateway_timeout, " 504 Gateway Timeout")
    ∷ (status_http_version_not_supported, " 505 HTTP Version Not Supported")
    ∷ []
