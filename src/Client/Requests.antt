-- ===== src/Client/Requests.antt =====
-- clients/cli/nexus_cli.py: the requests that the round trips send.
use project_nexus.Prelude.{ℕ, Option, none, some, [], ◌∷◌, String, if◌then◌else◌}
use project_nexus.Prelude.Int.{pos}
use project_nexus.Py.Text.{◌⧺◌, str_truthy}
use project_nexus.Py.Dict.{Dict, insert}
use project_nexus.Py.Value.{Value, int, float, str}

pub record Request : Type 0 where
  pub method : String
  pub url : String
  pub headers : Dict String
  pub body : Option (Dict Value)

abbrev pub with_system : Option String → Dict Value → Dict Value
with_system none body = body
with_system (some s) body = if str_truthy s then insert "system" (str s) body else body

abbrev pub with_temperature : Option String → Dict Value → Dict Value
with_temperature none body = body
with_temperature (some t) body = insert "temperature" (float t) body

unfoldable pub generate_request :
    String → String → Dict String → Option String → ℕ → String → Request
generate_request base_url prompt headers system max_tokens temperature = record {
  method = "POST";
  url = base_url ⧺ "/generate";
  headers = headers;
  body = some (
      with_system system (
        ("prompt", str prompt)
        ∷ ("max_tokens", int (pos max_tokens))
        ∷ ("temperature", float temperature)
        ∷ []));
}

unfoldable pub chat_request :
    String → String → String → Dict String → Option String → ℕ → Option String → Request
chat_request base_url member_id prompt headers system max_tokens temperature = record {
  method = "POST";
  url = base_url ⧺ "/members/" ⧺ member_id ⧺ "/chat";
  headers = headers;
  body = some (
      with_temperature temperature
        (with_system system (("prompt", str prompt) ∷ ("max_tokens", int (pos max_tokens)) ∷ [])));
}

unfoldable pub get_request : String → Dict String → Request
get_request url headers = record { method = "GET"; url = url; headers = headers; body = none }
