-- ===== src/Agent.antt =====
-- app/api/routes/agent_callbacks.py: the endpoints that a running agent calls. The module-level
-- dicts of questions and answers are shared by all requests; a long poll is two steps, its request
-- and its end.
pub mod Progress
pub mod Output
pub mod Dialogue
pub mod Signals
use langgraph_backend.Base.{
  ℕ, String, Bool, true, false, not, Option, none, some, List, [], ◌∷◌, ◌==◌, if◌then◌else◌, get_or,
  is_some, map,
}
use langgraph_backend.Base.Dict.{Dict, lookup, insert, remove, has_key}
use langgraph_backend.Value.{Value, null, text, array, items, State, is_none, get, record_of}
use langgraph_backend.GraphRun.{GraphRun}
use langgraph_backend.Mongo.{Collection}
use langgraph_backend.Mongo.Runs.{save}
use langgraph_backend.Approval.{HttpError, not_found, request_timeout, Response, ok, error}

-- `list[str] | None`
abbrev pub options_value : Option (List String) → Value
options_value none = null
options_value (some os) = array (items (map text os))

abbrev pub question_value : String → Option (List String) → Value
question_value question options =
    record_of (("question", text question) ∷ ("options", options_value options) ∷ [])

-- What a poll comes to: an answer at once, or a wait for the event.
pub data Poll : Type 0 where
  answered : Value → Poll
  waiting : Poll

module _ (mongo : Collection GraphRun) where
  open mongo use {Store, find_one}

  -- The stored runs and the module's dicts; an event is the flag that it holds.
  pub record Shared : Type 0 where
    pub runs : Store
    pub answer_events : Dict Bool
    pub answers : Dict String
    pub questions : Dict Value

  -- _get_or_create_event(run_id), with what the dict holds then
  abbrev pub with_event : String → Dict Bool → Dict Bool
  with_event run_id events = if has_key run_id events then events else insert run_id false events

  -- run.state = …; run.touch(); await container.run_repository.update(run)
  abbrev pub save_state : GraphRun → State → Shared → Shared
  save_state run state s = record s { runs = save mongo (record run { state = state }) s.runs }

  -- `agent_question`, up to its Slack notification. `event.clear()` leaves the event unset.
  unfoldable pub agent_question :
      String → String → Option (List String) → Shared → Response String × Shared
  agent_question run_id question options s = elim (find_one run_id s.runs) [
    | none ↦ (error not_found, s)
    | some run ↦ (
      ok "question_stored",
      save_state run (insert "_pending_question" (question_value question options) run.state)
          (record s {
            questions = insert run_id (question_value question options) s.questions;
            answer_events = insert run_id false s.answer_events;
            answers = remove run_id s.answers;
          }),
    )
  ]

  -- `agent_reply`: the answer is kept in memory and in the run, and the event is set.
  unfoldable pub agent_reply : String → String → Shared → Response String × Shared
  agent_reply run_id answer s = elim (find_one run_id s.runs) [
    | none ↦ (error not_found, s)
    | some run ↦ (
      ok "answer_delivered",
      save_state run (insert "_pending_answer" (text answer) (remove "_pending_question" run.state))
          (record s {
            answers = insert run_id answer s.answers;
            answer_events = insert run_id true s.answer_events;
          }),
    )
  ]

  -- An answer that the run keeps is given at once, and so is one whose event is set already; else
  -- the poll waits.
  unfoldable pub poll_run : String → GraphRun → Shared → Poll × Shared
  poll_run run_id run s =
      let pending = get "_pending_answer" run.state in
      if not (is_none pending)
      then (
        answered pending,
        save_state run (remove "_pending_answer" run.state) (record s {
          answers = remove run_id s.answers;
          answer_events = remove run_id s.answer_events;
        }),
      )
      else (let events = with_event run_id s.answer_events in
          if get_or (lookup run_id events) false
          then (
            answered (text (get_or (lookup run_id s.answers) "")),
            record s {
              answers = remove run_id s.answers;
              answer_events = remove run_id s.answer_events;
            },
          )
          else (waiting, record s { answer_events = events }))

  -- The request of `agent_input`.
  unfoldable pub agent_input : String → Shared → Response Poll × Shared
  unfolding poll_run
  agent_input run_id s = elim (find_one run_id s.runs) [
    | none ↦ (error not_found, s)
    | some run ↦ let (poll, s') = poll_run run_id run s in (ok poll, s')
  ]

  -- The end of a poll that waits: its event was set in time, or the ten minutes are over.
  unfoldable pub agent_input_end : Bool → String → Shared → Response String × Shared
  agent_input_end in_time run_id s =
      if in_time
      then (
        ok (get_or (lookup run_id s.answers) ""),
        record s {
          answers = remove run_id s.answers;
          answer_events = remove run_id s.answer_events;
        },
      )
      else (error request_timeout, s)
