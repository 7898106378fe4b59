-- ===== src/Hub/Inbox/Reach.antt =====
-- Every request, in any order and whatever the services answer, keeps the hub's invariant.
use project_nexus.Prelude.{
  ℕ, ◌+◌, ◌≡◌, ◌≢◌, refl, ◌∙◌, sym, Bool, Option, none, some, List, [], ◌∷◌, String, subst,
  Option-cases, Bool-cases, if_both, inl, inr, ◌==◌, ◌||◌,
}
use project_nexus.Py.Dict.{contains}
use project_nexus.Hub.Family.State.{
  Family, Outcome, ok, unknown_member, value_error, key_error, queued_messages, set_presence,
  enqueue, is_presence, presence,
}
use project_nexus.Hub.Family.Valid.{IsValid}
use project_nexus.Hub.Family.Queue.{enqueue_keeps, queue_or_unknown}
use project_nexus.Hub.Family.Presence.{set_presence_effect, set_presence_refusals}
use project_nexus.Hub.Turn.Types.{World, Settings, Hub, Member, GenerateRequest}
use project_nexus.Hub.Turn.Counter.{Numbered, run_turn-Numbered, live_member_turn-Numbered}
use project_nexus.Hub.Turn.Effects.{family-live_member_turn, family-run_turn}
use project_nexus.Hub.Turn.Pipeline.{
  Ask, Generated, generated, down, turn, os_error, LiveResult, TurnResult, run_turn,
  live_member_turn,
}
use project_nexus.Hub.Inbox.Order.{drain_order}
use project_nexus.Hub.Inbox.Numbering.{drain-Numbered}
use project_nexus.Hub.Inbox.Drain.{
  End, Drained, drain_inbox, drain_snapshot, finished, cortex_down, raised,
}
use project_nexus.Hub.Inbox.Endpoints.{
  Response, find_member, resolve_session_id, generate_response, post_generate, chat_response,
  queue_response, letter_of, by_presence, post_chat, drain_response, after_report, post_presence,
}

-- The family state is valid and every session's rows are numbered without gap or repetition.
pub record IsSound (h : Hub) : Type 0 where
  pub family : IsValid h.family
  pub numbered : Numbered h

generate-IsSound :
    (w : World) (s : Settings) (members : List Member) (h : Hub) (header : Option String)
    (person : String) (req : GenerateRequest)
    → IsSound h
    → IsSound (post_generate w s members h header person req).1
unfolding post_generate
generate-IsSound w s [] h header person req i = i
generate-IsSound w s (m ∷ ms) h header person req i = go (resolve_session_id header)
  where
    response : (r : TurnResult × Hub) → IsSound r.1 → IsSound (generate_response r).1
    response (generated g, h) i = i
    response (down d, h) i = i

    go :
        (sid : Option String)
        → IsSound (
            let r : Response Generated × Hub = elim sid [
              | none ↦ (Response.bad_request, h)
              | some session_id ↦ generate_response (run_turn w s h req session_id person m)
            ] in
            r.1)
    go none = i
    go (some sid) = response (run_turn w s h req sid person m) (record {
      family = rw (family-run_turn w s h req sid person m) i.family;
      numbered = run_turn-Numbered w s h req sid person m i.numbered;
    })

chat_response-IsSound : (r : LiveResult × Hub) → IsSound r.1 → IsSound (chat_response r).1
unfolding chat_response
chat_response-IsSound (os_error, h) i = i
chat_response-IsSound (turn sid (generated g), h) i = i
chat_response-IsSound (turn sid (down d), h) i = i

live-IsSound :
    (w : World) (s : Settings) (h : Hub) (member : Member) (person : String) (ask : Ask)
    → IsSound h
    → IsSound (live_member_turn w s h member person ask).1
live-IsSound w s h member person ask i = record {
  family = rw (family-live_member_turn w s h member person ask) i.family;
  numbered = live_member_turn-Numbered w s h member person ask i.numbered;
}

queue-IsSound :
    (h : Hub) (p : String) (out : Outcome (Family × String))
    → ((f : Family) (k : String) → out ≡ ok (f, k) → IsValid f)
    → IsSound h
    → IsSound (queue_response h p out).1
unfolding queue_response
queue-IsSound h p (ok (f, k)) v i = record { family = v f k refl; numbered = i.numbered }
queue-IsSound h p unknown_member v i = i
queue-IsSound h p value_error v i = i
queue-IsSound h p key_error v i = i

by_presence-IsSound :
    (w : World) (s : Settings) (h : Hub) (member : Member) (m person : String) (ask : Ask)
    (out : Outcome String)
    → IsSound h
    → IsSound (by_presence w s h member m person ask out).1
unfolding by_presence
by_presence-IsSound w s h member m person ask (ok p) i =
    if_both {A = Response Generated × Hub} (λ r. IsSound r.1) (p == "waking") i
      (if_both {A = Response Generated × Hub} (λ r. IsSound r.1) (p == "asleep" || p == "busy")
        (queue-IsSound h p
          (enqueue (w.inbox_disk h.moment) (w.now h.moment) (w.hex h.moment) h.family m
            (letter_of person ask))
          (enqueue_keeps (w.inbox_disk h.moment) (w.now h.moment) (w.hex h.moment) h.family m
            (letter_of person ask) i.family)
          i)
        (chat_response-IsSound (live_member_turn w s h member person ask)
          (live-IsSound w s h member person ask i)))
by_presence-IsSound w s h member m person ask unknown_member i = i
by_presence-IsSound w s h member m person ask value_error i = i
by_presence-IsSound w s h member m person ask key_error i = i

chat-IsSound :
    (w : World) (s : Settings) (members : List Member) (h : Hub) (m person : String) (ask : Ask)
    → IsSound h
    → IsSound (post_chat w s members h m person ask).1
unfolding post_chat
chat-IsSound w s members h m person ask i = elim (Option-cases (find_member members m)) [
  | inl e ↦ rw (e, post_chat) i
  | inr (member, e) ↦
      rw (e, post_chat) (by_presence-IsSound w s h member m person ask (presence h.family m) i)
]

drain_response-IsSound : (r : Drained × Hub) → IsSound r.1 → IsSound (drain_response r).1
unfolding drain_response
drain_response-IsSound (d, h) i = go d.ending
  where
    go :
        (ending : End)
        → IsSound (
            let r : Response ℕ × Hub = elim ending [
              | raised ↦ (Response.server_error, h)
              | finished ↦ (Response.success d.answered, h)
              | cortex_down ↦ (Response.success d.answered, h)
            ] in
            r.1)
    go finished = i
    go cortex_down = i
    go raised = i

unknown_drain :
    (w : World) (s : Settings) (h : Hub) (member : Member)
    → queued_messages h.family member.id ≡ unknown_member
    → (drain_inbox w s h member).1 ≡ h
unfolding drain_inbox
unknown_drain w s h member e = rw (e, drain_snapshot)

drain-IsSound :
    (w : World) (s : Settings) (h : Hub) (member : Member)
    → IsSound h
    → IsSound (drain_inbox w s h member).1
drain-IsSound w s h member i = elim (queue_or_unknown h.family member.id i.family) [
  | inl (q, e) ↦ record {
    family = (drain_order w s h member q i.family e).valid;
    numbered = drain-Numbered w s h member i.numbered;
  }
  | inr e ↦ rw (unknown_drain w s h member e) i
]

ok_injective {ℓ} : {A : Type ℓ} {x y : A} → ◌≡◌ {A = Outcome A} (ok x) (ok y) → x ≡ y
ok_injective e = cc

value_ne_ok {ℓ} : {A : Type ℓ} {x : A} → ◌≢◌ {A = Outcome A} value_error (ok x)
value_ne_ok e = cc

unknown_ne_ok {ℓ} : {A : Type ℓ} {x : A} → ◌≢◌ {A = Outcome A} unknown_member (ok x)
unknown_ne_ok e = cc

set_presence_keeps :
    (writes : Bool) (now : String) (s : Family) (m p : String)
    → IsValid s
    → (s' : Family) → set_presence writes now s m p ≡ ok s'
    → IsValid s'
set_presence_keeps writes now s m p h s' e = elim (Bool-cases (contains m s.presences)) [
  | inl here ↦ elim (Bool-cases (is_presence p)) [
    | inl known ↦
        let (s1, done, valid, _, _, _, _) = set_presence_effect writes now s m p h here known in
        subst IsValid (ok_injective (sym done ∙ e)) valid
    | inr bad ↦ absurd (value_ne_ok (sym ((set_presence_refusals writes now s m p).1 here bad) ∙ e))
  ]
  | inr away ↦ absurd (unknown_ne_ok (sym ((set_presence_refusals writes now s m p).0 away) ∙ e))
]

report-IsSound :
    (w : World) (s : Settings) (h : Hub) (member : Member) (p : String) (out : Outcome Family)
    → ((f : Family) → out ≡ ok f → IsValid f)
    → IsSound h
    → IsSound (after_report w s h member p out).1
unfolding after_report
report-IsSound w s h member p (ok f) v i =
    let h' : Hub = record h { family = f; moment = h.moment + 1 } in
    let i' : IsSound h' = record { family = v f refl; numbered = i.numbered } in
    if_both {A = Response ℕ × Hub} (λ r. IsSound r.1) (p == "awake")
      (drain_response-IsSound (drain_inbox w s h' member) (drain-IsSound w s h' member i')) i'
report-IsSound w s h member p unknown_member v i = i
report-IsSound w s h member p value_error v i = i
report-IsSound w s h member p key_error v i = i

presence-IsSound :
    (w : World) (s : Settings) (members : List Member) (h : Hub) (m p : String)
    → IsSound h
    → IsSound (post_presence w s members h m p).1
unfolding post_presence
presence-IsSound w s members h m p i = elim (Option-cases (find_member members m)) [
  | inl e ↦ rw (e, post_presence) i
  | inr (member, e) ↦
      rw (e, post_presence)
        (report-IsSound w s h member p
          (set_presence (w.inbox_disk h.moment) (w.now h.moment) h.family m p)
          (set_presence_keeps (w.inbox_disk h.moment) (w.now h.moment) h.family m p i.family) i)
]

-- One request to the hub.
pub data Request : Type 0 where
  generate : Option String → String → GenerateRequest → Request
  chat : String → String → Ask → Request
  report : String → String → Request

unfoldable pub serve : World → Settings → List Member → Hub → Request → Hub
serve w s members h (generate header person req) = (post_generate w s members h header person req).1
serve w s members h (chat m person ask) = (post_chat w s members h m person ask).1
serve w s members h (report m p) = (post_presence w s members h m p).1

-- The requests one after another; a request that fails leaves what it wrote before it failed.
unfoldable pub serve_all : World → Settings → List Member → Hub → List Request → Hub
unfolding serve
serve_all w s members h [] = h
serve_all w s members h (r ∷ rs) = serve_all w s members (serve w s members h r) rs

-- Whatever requests come in whatever order, and whatever the cortex, the embedder, the disks and the
-- clock answer: the inboxes stay well formed, presences stay known states, and the rows of each
-- session carry consecutive turn indices, the session's counter being the next one.
pub serve_all-IsSound :
    (w : World) (s : Settings) (members : List Member) (h : Hub) (requests : List Request)
    → IsSound h
    → IsSound (serve_all w s members h requests)
unfolding serve_all
serve_all-IsSound w s members h [] i = i
serve_all-IsSound w s members h (generate header person req ∷ rs) i =
    serve_all-IsSound w s members (post_generate w s members h header person req).1 rs
      (generate-IsSound w s members h header person req i)
serve_all-IsSound w s members h (chat m person ask ∷ rs) i =
    serve_all-IsSound w s members (post_chat w s members h m person ask).1 rs
      (chat-IsSound w s members h m person ask i)
serve_all-IsSound w s members h (report m p ∷ rs) i =
    serve_all-IsSound w s members (post_presence w s members h m p).1 rs
      (presence-IsSound w s members h m p i)
