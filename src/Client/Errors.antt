-- ===== src/Client/Errors.antt =====
-- clients/cli/nexus_cli.py: what the round trips raise for an HTTP error.
use project_nexus.Prelude.{ℕ, Option, none, some, String, nat_eq, ◌==◌, if◌then◌else◌}
use project_nexus.Prelude.Int.{ℤ, pos, is_zero}
use project_nexus.Py.Text.{◌⧺◌}
use project_nexus.Py.Number.{str_of_nat}
use project_nexus.Client.Settings.{or_text, or_default}

-- The fields of an error's JSON body that the client reads.
pub record ErrorBody : Type 0 where
  pub message : Option String
  pub detail : Option String
  pub error : Option String
  pub retry_after_seconds : Option ℤ

-- An `HTTPError`: its body, where it is a JSON object, and the Retry-After header, where it holds an
-- integer.
pub record HttpError : Type 0 where
  pub code : ℕ
  pub reason : Option String
  pub error_body : Option ErrorBody
  pub retry_after_header : Option ℤ

-- BrainstemError and its two subclasses, which carry the seconds to wait and the error's code.
pub data CallError : Type 0 where
  brainstem_error : String → CallError
  cortex_down : String → ℤ → String → CallError
  member_loading : String → ℤ → String → CallError

unfoldable pub readable_reason : HttpError → String
unfolding or_text
readable_reason exc = or_text exc.reason ("HTTP " ⧺ str_of_nat exc.code)

-- The empty dict that stands for a body which is no JSON object has no field.
abbrev pub no_body : ErrorBody
no_body = record { message = none; detail = none; error = none; retry_after_seconds = none }

unfoldable pub extract_body : HttpError → ErrorBody
extract_body exc = or_default exc.error_body no_body

unfoldable pub detail_of : HttpError → String
unfolding or_text extract_body
detail_of exc =
    or_text (extract_body exc).message (or_text (extract_body exc).detail (readable_reason exc))

-- `n or rest`, where `n` may be None
unfoldable pub or_int : Option ℤ → ℤ → ℤ
or_int none rest = rest
or_int (some n) rest = if is_zero n then rest else n

unfoldable pub retry_after : HttpError → ℤ
unfolding or_int extract_body
retry_after exc =
    or_int (extract_body exc).retry_after_seconds (or_int exc.retry_after_header (pos 5))

unfoldable pub error_code : HttpError → String
unfolding or_text extract_body
error_code exc = or_text (extract_body exc).error "cortex_unavailable"

-- What the three round trips with a JSON answer share after the codes of their own.
unfoldable pub other_error : HttpError → CallError
unfolding detail_of
other_error exc =
    if nat_eq exc.code 502
    then brainstem_error ("brainstem reached, but a downstream call failed (502): " ⧺ detail_of exc)
    else brainstem_error ("brainstem returned HTTP " ⧺ str_of_nat exc.code ⧺ ": " ⧺ detail_of exc)

unfoldable pub generate_error : HttpError → CallError
unfolding detail_of retry_after error_code other_error
generate_error exc =
    if nat_eq exc.code 401
    then brainstem_error (
        "brainstem rejected the request (401 "
        ⧺ detail_of exc
        ⧺ "). Set --token, NEXUS_AUTH_TOKEN, or auth_token in config.json. Mint one on the 4070 with `docker compose exec brainstem python scripts/create_token.py --name <client>`.")
    else if nat_eq exc.code 503
    then cortex_down (detail_of exc) (retry_after exc) (error_code exc)
    else other_error exc

unfoldable pub chat_error : String → HttpError → CallError
unfolding detail_of retry_after error_code other_error
chat_error member_id exc =
    if nat_eq exc.code 401
    then brainstem_error (
        "brainstem rejected the request (401 "
        ⧺ detail_of exc
        ⧺ "). Set --token, NEXUS_AUTH_TOKEN, or auth_token in config.json.")
    else if nat_eq exc.code 404
    then brainstem_error ("unknown member '" ⧺ member_id ⧺ "': " ⧺ detail_of exc)
    else if nat_eq exc.code 503
    then (if error_code exc == "member_loading"
        then member_loading (detail_of exc) (retry_after exc) (error_code exc)
        else cortex_down (detail_of exc) (retry_after exc) (error_code exc))
    else other_error exc

unfoldable pub inbox_error : String → String → HttpError → CallError
unfolding readable_reason
inbox_error member_id msg_id exc =
    if nat_eq exc.code 404
    then brainstem_error (
        "no queued message '"
        ⧺ msg_id
        ⧺ "' for member '"
        ⧺ member_id
        ⧺ "' (wrong id, already gone, or it isn't yours): "
        ⧺ readable_reason exc)
    else if nat_eq exc.code 401
    then brainstem_error
        ("brainstem rejected the request (401 " ⧺ readable_reason exc ⧺ "). check your auth token.")
    else brainstem_error (
        "brainstem returned HTTP "
        ⧺ str_of_nat exc.code
        ⧺ " for inbox status: "
        ⧺ readable_reason exc)

unfoldable pub family_error : HttpError → CallError
unfolding readable_reason
family_error exc =
    brainstem_error
      ("brainstem returned HTTP " ⧺ str_of_nat exc.code ⧺ " for /family: " ⧺ readable_reason exc)
