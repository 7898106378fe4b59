-- ===== src/Hub/Turn/Down.antt =====
-- The cortex-down contract: `_classify_cortex_error` and `_cortex_down_response` of
-- nodes/brainstem_4070/server.py.
use Prim.Native.Char.{code}
use project_nexus.Prelude.{
  ℕ, ◌+◌, Bool, true, false, ◌&&◌, ◌||◌, Option, String, leb, nat_eq, if◌then◌else◌,
}
use project_nexus.Hub.Turn.Types.{Settings}

-- `lower` on one code point. Beyond ASCII only U+0130 and U+212A lower to ASCII letters, an `i` under
-- a combining dot and a `k`, which no text that is looked for here holds.
unfoldable pub lower : ℕ → ℕ
lower c = if leb 65 c && leb c 90 then c + 32 else c

-- s.lower().startswith(needle)
unfoldable pub starts_lower : String → String → Bool
unfolding lower
starts_lower String.[] s = true
starts_lower (String.◌∷◌ n needle) String.[] = false
starts_lower (String.◌∷◌ n needle) (String.◌∷◌ c s) =
    nat_eq (code n) (lower (code c)) && starts_lower needle s

-- needle in s.lower()
unfoldable pub in_lower : String → String → Bool
unfolding starts_lower
in_lower needle String.[] = starts_lower needle String.[]
in_lower needle (String.◌∷◌ c s) = starts_lower needle (String.◌∷◌ c s) || in_lower needle s

-- The code that clients branch on.
pub data DownCode : Type 0 where
  cortex_unavailable cortex_timeout : DownCode

-- The 503 body; the header `Retry-After` is `str` of the same number.
pub record Down : Type 0 where
  pub error : DownCode
  pub retry_after_seconds : ℕ
  pub retry_after_header : ℕ
  pub session_id : Option String
  pub turn_idx : Option ℕ

unfoldable pub is_timeout : String → Bool
unfolding in_lower
is_timeout text = in_lower "timeout" text || in_lower "timed out" text

unfoldable pub classify_cortex_error : Settings → String → DownCode × ℕ
classify_cortex_error settings text =
    if is_timeout text
    then (cortex_timeout, settings.cortex_timeout_retry)
    else (cortex_unavailable, settings.cortex_down_retry)

unfoldable pub cortex_down_response : Settings → String → Option String → Option ℕ → Down
cortex_down_response settings text session_id turn_idx =
    let (error, retry_after) = classify_cortex_error settings text in
    record {
      error = error;
      retry_after_seconds = retry_after;
      retry_after_header = retry_after;
      session_id = session_id;
      turn_idx = turn_idx;
    }
