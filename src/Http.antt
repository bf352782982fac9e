-- ===== src/Http.antt =====
-- The tests of errors in pkg/utils/utils.go. An error may be nil, so they take a Failure.
use ingress_gce.Base.{
  ℕ, Bool, false, ◌&&◌, not, none, some, [], Str, codes, str_eq, contains, api, plain, aggregate,
  Failure, ◌==◌, if◌then◌else◌,
}

abbrev pub status_not_found : ℕ
status_not_found = 404

abbrev pub status_conflict : ℕ
status_conflict = 409

unfoldable pub is_http_error_code : Failure → ℕ → Bool
is_http_error_code none code = false
is_http_error_code (some (api c message)) code = c == code
is_http_error_code (some (plain message)) code = false
is_http_error_code (some (aggregate es)) code = false

unfoldable pub ignore_http_not_found : Failure → Failure
ignore_http_not_found f = if is_http_error_code f status_not_found then none else f

unfoldable pub is_in_used_by_error : Failure → Bool
is_in_used_by_error none = false
is_in_used_by_error (some (api c message)) = c == 400 && contains (codes "being used by") message
is_in_used_by_error (some (plain message)) = false
is_in_used_by_error (some (aggregate es)) = false

unfoldable pub is_not_found_error : Failure → Bool
is_not_found_error f = is_http_error_code f status_not_found

unfoldable pub is_forbidden_error : Failure → Bool
is_forbidden_error f = is_http_error_code f 403

unfoldable pub compare_links : Str → Str → Bool
compare_links l1 l2 = str_eq l1 l2 && not (str_eq l1 [])
