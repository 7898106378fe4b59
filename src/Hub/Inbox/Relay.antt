-- ===== src/Hub/Inbox/Relay.antt =====
-- The endpoints of nodes/brainstem_4070/server.py that answer from the stores or pass a call on to the
-- embedder: roster, member, briefing, household feed, promotion.
use project_nexus.Prelude.{
  ℕ, ◌+◌, Bool, true, false, ◌||◌, Option, none, some, List, [], ◌∷◌, String, if◌then◌else◌,
}
use project_nexus.Py.Text.{str_truthy, starts_with}
use project_nexus.Hub.Family.State.{
  Family, Outcome, ok, unknown_member, value_error, key_error, presence, queue_depth, ◌>>=◌,
}
use project_nexus.Hub.Turn.Types.{
  World, Settings, Hub, Member, Briefing, Timeline, HouseholdEvent, events, embedder_error,
}
use project_nexus.Hub.Inbox.Briefing.{build_briefing, spoken_briefing}
use project_nexus.Hub.Inbox.Endpoints.{find_member}

-- `_member_summary`, less the model's description
pub record Summary : Type 0 where
  pub id : String
  pub display_name : String
  pub presence : String
  pub queue_depth : ℕ

unfoldable pub member_summary : Family → Member → Outcome Summary
member_summary s member = do
  p ← presence s member.id
  depth ← queue_depth s member.id
  ok (record {
    id = member.id;
    display_name = member.display_name;
    presence = p;
    queue_depth = depth;
  })

-- GET /family
unfoldable pub family_roster : Family → List Member → Outcome (List Summary)
unfolding member_summary
family_roster s [] = ok []
family_roster s (m ∷ ms) = do
  first ← member_summary s m
  rest ← family_roster s ms
  ok (first ∷ rest)

-- What a relaying endpoint answers; the texts of error details are left out.
pub data Relayed (A : Type 0) : Type 0 where
  success : A → Relayed A
  bad_request not_found bad_gateway server_error : Relayed A

unfoldable pub relayed : {A : Type 0} → Outcome A → Relayed A
relayed (ok a) = success a
relayed unknown_member = server_error
relayed value_error = server_error
relayed key_error = server_error

-- GET /members/{member_id}, its summary
unfoldable pub member_detail : Family → List Member → String → Relayed Summary
unfolding relayed member_summary
member_detail s members member_id = elim (find_member members member_id) [
  | none ↦ not_found
  | some member ↦ relayed (member_summary s member)
]

-- The arguments of `embedder.memory_promote`.
pub record Promotion : Type 0 where
  pub member_id : String
  pub memory_id : String
  pub promoted_by : String

-- The arguments of `embedder.memory_event`.
pub record Event : Type 0 where
  pub summary : String
  pub sensor_source : String
  pub ts : String
  pub reported_by : String

-- The embedder's answer to a call, or `str(exc)` of the `EmbedderError`.
pub data Answered (A : Type 0) : Type 0 where
  result : A → Answered A
  failed : String → Answered A

-- needle in detail
unfoldable pub mentions : String → String → Bool
unfolding starts_with
mentions needle String.[] = starts_with needle String.[]
mentions needle (String.◌∷◌ c s) = starts_with needle (String.◌∷◌ c s) || mentions needle s

unfoldable pub promoted : {A : Type 0} → Answered A → Relayed A
unfolding mentions
promoted (result a) = success a
promoted (failed detail) =
    if mentions "404" detail
    then not_found
    else if mentions "400" detail
    then bad_request
    else bad_gateway

-- POST /members/{member_id}/memory/promote; `person` is the name of the token.
unfoldable pub member_memory_promote :
    {A : Type 0} → (Promotion → Answered A) → List Member → String → String → String → Relayed A
unfolding promoted
member_memory_promote memory_promote members member_id memory_id person =
    elim (find_member members member_id) [
      | none ↦ not_found
      | some member ↦ promoted (
          memory_promote
            (record { member_id = member_id; memory_id = memory_id; promoted_by = person }))
    ]

unfoldable pub reported : {A : Type 0} → Answered A → Relayed A
unfolding mentions
reported (result a) = success a
reported (failed detail) = if mentions "400" detail then bad_request else bad_gateway

-- req.ts or datetime.now(timezone.utc).isoformat()
unfoldable pub event_ts : String → Option String → String
event_ts now none = now
event_ts now (some ts) = if str_truthy ts then ts else now

-- POST /household/events
unfoldable pub household_event :
    {A : Type 0}
    → (Event → Answered A)
    → String
    → String
    → String
    → Option String
    → String
    → Relayed A
unfolding reported event_ts
household_event memory_event now summary sensor_source ts person = reported (
    memory_event (record {
      summary = summary;
      sensor_source = sensor_source;
      ts = event_ts now ts;
      reported_by = person;
    }))

-- GET /household/timeline
unfoldable pub household_timeline : Timeline → Relayed (List HouseholdEvent)
household_timeline (events es) = success es
household_timeline (embedder_error text) = bad_gateway

-- A briefing, and with `spoken=true` the prose.
pub record Told : Type 0 where
  pub briefing : Briefing
  pub spoken : Option (Option String)

unfoldable pub tell : World → Settings → Hub → Bool → Outcome Briefing → Relayed Told × Hub
unfolding spoken_briefing
tell w settings h false (ok b) = (success (record { briefing = b; spoken = none }), h)
tell w settings h true (ok b) =
    let (text, h') = spoken_briefing w settings (record h { moment = h.moment + 1 }) b in
    (success (record { briefing = b; spoken = some text }), h')
tell w settings h spoken unknown_member = (server_error, h)
tell w settings h spoken value_error = (server_error, h)
tell w settings h spoken key_error = (server_error, h)

-- GET /members/{member_id}/briefing
unfoldable pub member_briefing :
    World → Settings → List Member → Hub → String → Bool → Relayed Told × Hub
unfolding tell
member_briefing w settings members h member_id spoken = elim (find_member members member_id) [
  | none ↦ (not_found, h)
  | some member ↦ tell w settings h spoken (build_briefing w h.moment h.family member_id)
]
