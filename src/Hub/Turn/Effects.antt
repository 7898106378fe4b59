-- ===== src/Hub/Turn/Effects.antt =====
-- What one turn returns and changes, when the cortex answers and when it does not.
use project_nexus.Prelude.{
  ℕ, ◌+◌, ◌≡◌, ◌≢◌, refl, ◌∙◌, sym, Bool, true, false, Option, none, some, List, [], ◌∷◌, String,
  arith, eq_iff, eq_refl, ◌==◌, if◌then◌else◌, Bool-cases, inl, inr, test_of_ne,
}
use project_nexus.Embedder.Scopes.Defs.{private_scope}
use project_nexus.Hub.Sessions.Store.{Sessions}
use project_nexus.Py.Dict.{Dict, insert}
use project_nexus.Hub.Turn.Types.{
  GenerateRequest, Completion, Reply, completion, cortex_error, Memory, Member, World, Settings,
  Hub,
}
use project_nexus.Hub.Turn.Down.{cortex_down_response}
use project_nexus.Hub.Turn.Counter.{turn_of-insert}
use project_nexus.Hub.Turn.Pipeline.{
  TurnResult, Generated, turn_of, memory_of, conclude, run_turn, generated, down, settle,
  on_session, live_member_turn, Ask, seed, request_of, retrieve, effective_system, ids_of,
  error_text, generated_of,
}

-- Nothing but the counters, the metrics and the rows is touched by a turn.
pub record SameCustody (h h' : Hub) : Type 0 where
  pub family : h'.family ≡ h.family
  pub sessions : h'.sessions ≡ h.sessions

-- A turn that the cortex failed: no row, no counter moved.
pub record IsDown (s : Settings) (h h' : Hub) (sid text : String) (r : TurnResult) : Type 0 where
  pub result : r ≡ down (cortex_down_response s (error_text text) (some sid) none)
  pub rows : h'.rows ≡ h.rows
  pub counters : (j : String) → turn_of h'.turns j ≡ turn_of h.turns j
  pub custody : SameCustody h h'

-- What a turn that the cortex answered leaves of itself. Where the memory was written: one more row,
-- in the member's private scope, under the index that the caller is told and before the counter.
-- Where it was not: no row, no index, and the counter stays.
abbrev pub Left : Hub → Hub → String → String → Member → Generated → Bool → Type 0
Left h h' sid person member g true =
    (row : Memory) × (h'.rows ≡ row ∷ h.rows)
    × (row.session_id ≡ sid)
    × (row.scope ≡ private_scope member.id)
    × (row.member_id ≡ member.id)
    × (row.participants ≡ person ∷ [])
    × (row.turn_idx ≡ turn_of h.turns sid)
    × (g.turn_idx ≡ some row.turn_idx)
    × (turn_of h'.turns sid ≡ row.turn_idx + 1)
Left h h' sid person member g false =
    (h'.rows ≡ h.rows) × (g.turn_idx ≡ none) × (turn_of h'.turns sid ≡ turn_of h.turns sid)

-- A turn that the cortex answered.
pub record IsAnswered (h h' : Hub) (sid person : String) (member : Member) (c : Completion)
    (g : Generated) : Type 0 where
  pub text : g.text ≡ c.text
  pub session : g.session_id ≡ sid
  pub custody : SameCustody h h'
  pub others : (j : String) → j ≢ sid → turn_of h'.turns j ≡ turn_of h.turns j
  pub left : Left h h' sid person member g g.memory_written

conclude-IsDown :
    (w : World) (s : Settings) (h : Hub) (t : ℕ) (prompt sid person : String) (member : Member)
    (ids : List String) (text : String)
    → IsDown s h
        (conclude w s (record h { moment = t }) prompt sid person member ids (cortex_error text)).1
        sid
        text
        (conclude w s (record h { moment = t }) prompt sid person member ids (cortex_error text)).0
unfolding conclude
conclude-IsDown w s h t prompt sid person member ids text = record {
  result = refl;
  rows = refl;
  counters = λ j. turn_of-insert sid j (turn_of h.turns sid) h.turns ∙ ground (arith, eq_iff sid j);
  custody = record { family = refl; sessions = refl };
}

abbrev Row : World → Hub → String → String → String → Member → Completion → Memory
Row w h prompt sid person member c =
    memory_of w h.moment sid prompt person member (turn_of h.turns sid) c

-- The counters after a row was accepted, and after it was not.
turn_after_write :
    (sid j : String) (turns : Dict ℕ)
    → turn_of (insert sid (turn_of turns sid + 1) (insert sid (turn_of turns sid) turns)) j
      ≡ (if sid == j then turn_of turns sid + 1 else turn_of turns j)
turn_after_write sid j turns = rw (turn_of-insert, turn_of-insert) (ground arith)

turn_after_read :
    (sid j : String) (turns : Dict ℕ)
    → turn_of (insert sid (turn_of turns sid) turns) j ≡ turn_of turns j
turn_after_read sid j turns = rw turn_of-insert (ground (arith, eq_iff sid j))

conclude-IsAnswered :
    (w : World) (s : Settings) (h : Hub) (t : ℕ) (prompt sid person : String) (member : Member)
    (ids : List String) (c : Completion)
    → (g : Generated) × ((conclude w s
          (record h { moment = t })
          prompt
          sid
          person
          member
          ids
          (completion c)).0
        ≡ generated g)
      × IsAnswered h
          (conclude w s (record h { moment = t }) prompt sid person member ids (completion c)).1
          sid
          person
          member
          c
          g
unfolding conclude
conclude-IsAnswered w s h t prompt sid person member ids c =
    elim (Bool-cases
      (w.memory_write t (Row w (record h { moment = t }) prompt sid person member c))) [
        | inl accepted ↦ rw accepted (
          generated_of c sid (turn_of h.turns sid) true,
          refl,
          record {
            text = refl;
            session = refl;
            custody = record { family = refl; sessions = refl };
            others = λ j ne.
                turn_after_write sid j h.turns ∙ ground (arith, test_of_ne sid j (λ e. ne (sym e)));
            left = (
              Row w (record h { moment = t }) prompt sid person member c,
              refl,
              refl,
              refl,
              refl,
              refl,
              refl,
              refl,
              turn_after_write sid sid h.turns ∙ ground (arith, eq_refl sid),
            );
          },
        )
        | inr refused ↦ rw refused (
          generated_of c sid (turn_of h.turns sid) false,
          refl,
          record {
            text = refl;
            session = refl;
            custody = record { family = refl; sessions = refl };
            others = λ j ne. turn_after_read sid j h.turns;
            left = (refl, refl, turn_after_read sid sid h.turns);
          },
        )
      ]

-- What the cortex answers to the prompt of a turn, under the memories that were retrieved for it.
abbrev pub asked : World → Hub → GenerateRequest → String → Member → Reply
asked w h req sid member =
    w.cortex (h.moment + 1) (effective_system w req.system (retrieve w h sid req.prompt member)) req

-- What a turn comes to, by the reply of the cortex.
abbrev pub TurnEffect :
    Settings → Hub → String → String → Member → Reply → TurnResult × Hub → Type 0
TurnEffect s h sid person member (cortex_error text) r = IsDown s h r.1 sid text r.0
TurnEffect s h sid person member (completion c) r =
    (g : Generated) × (r.0 ≡ generated g) × IsAnswered h r.1 sid person member c g

conclude_effect :
    (w : World) (s : Settings) (h : Hub) (t : ℕ) (prompt sid person : String) (member : Member)
    (ids : List String) (reply : Reply)
    → TurnEffect s h sid person member reply
        (conclude w s (record h { moment = t }) prompt sid person member ids reply)
conclude_effect w s h t prompt sid person member ids (cortex_error text) =
    conclude-IsDown w s h t prompt sid person member ids text
conclude_effect w s h t prompt sid person member ids (completion c) =
    conclude-IsAnswered w s h t prompt sid person member ids c

-- When the cortex fails, a turn returns the cortex-down response for its session, stores no row and
-- moves no counter. When the cortex answers, the caller gets its text, and either one row was stored
-- in the member's private scope under the session's counter, which is the index that the caller is
-- told and which is then one higher; or no row was stored, no index is told and the counter stays.
-- In all cases other sessions' counters, the inboxes and the stored sessions are not touched.
pub run_turn_effect :
    (w : World) (s : Settings) (h : Hub) (req : GenerateRequest) (sid person : String)
    (member : Member)
    → TurnEffect s h sid person member
        (asked w h req sid member)
        (run_turn w s h req sid person member)
unfolding run_turn
run_turn_effect w s h req sid person member =
    conclude_effect w s h (h.moment + 2) req.prompt sid person member
      (ids_of (retrieve w h sid req.prompt member)) (asked w h req sid member)

module _ (w : World) (s : Settings) where
  pub family-run_turn :
      (h : Hub) (req : GenerateRequest) (sid person : String) (member : Member)
      → (run_turn w s h req sid person member).1.family ≡ h.family
  family-run_turn h req sid person member =
      family_of_effect (asked w h req sid member) (run_turn_effect w s h req sid person member)
    where
      family_of_effect :
          (reply : Reply)
          → TurnEffect s h sid person member reply (run_turn w s h req sid person member)
          → (run_turn w s h req sid person member).1.family ≡ h.family
      family_of_effect (cortex_error text) e = e.custody.family
      family_of_effect (completion c) (g, r, e) = e.custody.family

  family-settle :
      (person : String) (member : Member) (sid : String) (r : TurnResult × Hub)
      → (settle w person member sid r).1.family ≡ r.1.family
  unfolding settle
  family-settle person member sid (down d, h) = refl
  family-settle person member sid (generated g, h) = refl

  family-on_session :
      (member : Member) (person : String) (ask : Ask) (minted : Option (String × ℕ) × Sessions)
      (h : Hub)
      → (on_session w s member person ask minted h).1.family ≡ h.family
  unfolding on_session
  family-on_session member person ask (none, sessions) h = refl
  family-on_session member person ask (some (sid, stored), sessions) h =
      family-settle person member sid _
      ∙ family-run_turn
          (record h { moment = h.moment + 1; sessions = sessions; turns = seed sid stored h.turns })
          (request_of member ask) sid person member

  -- A live turn leaves presence and inboxes alone.
  pub family-live_member_turn :
      (h : Hub) (member : Member) (person : String) (ask : Ask)
      → (live_member_turn w s h member person ask).1.family ≡ h.family
  unfolding live_member_turn
  family-live_member_turn h member person ask = family-on_session member person ask _ h
