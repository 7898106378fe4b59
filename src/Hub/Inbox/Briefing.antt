-- ===== src/Hub/Inbox/Briefing.antt =====
-- `_build_briefing` and `_spoken_briefing` of nodes/brainstem_4070/server.py.
use Prim.Native.String.{compare}
use text.Mathlib.Text.{is_le}
use project_nexus.Prelude.{
  ℕ, ◌+◌, Bool, Option, none, some, List, [], ◌∷◌, map, String, filter, take, if◌then◌else◌,
}
use project_nexus.Prelude.Int.{pos}
use project_nexus.Py.Text.{◌⧺◌, strip, str_truthy}
use project_nexus.Hub.Family.State
use project_nexus.Hub.Family.State.{Family, Message, Outcome, ok, ◌>>=◌}
use project_nexus.Hub.Turn.Types.{
  GenerateRequest, Reply, completion, cortex_error, World, Settings, Hub, HouseholdEvent, Timeline,
  events, embedder_error, Custody, Briefing, Concierge, Probe, briefing,
}
use project_nexus.Hub.Turn.Context.{or_default}

abbrev pub briefing_event_cap : ℕ
briefing_event_cap = 50

unfoldable pub custody_of : Message → Custody
custody_of m = record { msg_id = m.msg_id; person = m.person; queued_at = m.queued_at }

-- ts >= cutoff
unfoldable pub since : String → HouseholdEvent → Bool
since cutoff e = is_le (compare cutoff (or_default "" e.ts))

unfoldable pub window : String → Timeline → List HouseholdEvent
unfolding since
window cutoff (events es) = take briefing_event_cap (filter (since cutoff) es)
window cutoff (embedder_error text) = []

unfoldable pub timeline_error : Timeline → Option String
timeline_error (events es) = none
timeline_error (embedder_error text) = some text

-- `asleep_since or` the time 24 hours ago
unfoldable pub cutoff_of : Option String → String → String
cutoff_of none fallback = fallback
cutoff_of (some since) fallback = if str_truthy since then since else fallback

unfoldable pub since_source_of : Option String → String
since_source_of none = "24h_fallback"
since_source_of (some since) = if str_truthy since then "last_asleep_at" else "24h_fallback"

-- The digest at moment `t`, from the inbox, the presence log and the household timeline.
unfoldable pub build_briefing : World → ℕ → Family → String → Outcome Briefing
unfolding custody_of window timeline_error cutoff_of since_source_of
build_briefing w t s member_id = do
  asleep_since ← State.last_asleep_at s member_id
  queued ← State.queued_messages s member_id
  presence ← State.presence s member_id
  let cutoff = cutoff_of asleep_since (w.day_before t)
  let timeline = w.memory_timeline t 200
  ok (record {
    member_id = member_id;
    generated_at = w.now t;
    presence = presence;
    since = cutoff;
    since_source = since_source_of asleep_since;
    queued_messages = map custody_of queued;
    household_events = window cutoff timeline;
    household_events_error = timeline_error timeline;
  })

-- The concierge's prompt; `repr` of a member id puts it in quotes.
unfoldable pub spoken_request : World → Concierge → Briefing → GenerateRequest
spoken_request w c b = record {
  prompt =
      "Prepare the wake-up briefing for family member '"
      ⧺ b.member_id
      ⧺ "' from this data, and nothing else. Every statement must trace to a field below. If a list is empty, say so in one short line.\n\n"
      ⧺ w.dumps b;
  system = some c.spec;
  max_tokens = pos 400;
  temperature = or_default "0.3" c.temperature;
}

-- (text or "").strip() or None
unfoldable pub spoken_text : String → Option String
spoken_text text = if str_truthy (strip text) then some (strip text) else none

-- metrics_sink.write(record)
unfoldable pub sink_probe : World → Probe → Hub → Hub
sink_probe w probe h = record h {
  sink = if w.sink_disk h.moment then probe ∷ h.sink else h.sink;
  moment = h.moment + 1;
}

unfoldable pub spoken_from : World → Hub → Briefing → Reply → Option String × Hub
spoken_from w h b (cortex_error text) = (none, h)
spoken_from w h b (completion c) = (spoken_text c.text, sink_probe w (briefing b.member_id) h)

unfoldable pub spoken_briefing : World → Settings → Hub → Briefing → Option String × Hub
unfolding spoken_request spoken_text sink_probe spoken_from
spoken_briefing w settings h b = elim settings.concierge [
  | none ↦ (none, h)
  | some c ↦
      let req = spoken_request w c b in
      spoken_from w (record h { moment = h.moment + 1 }) b
        (w.concierge_reply h.moment req.system req)
]
