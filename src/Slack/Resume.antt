-- ===== src/Slack/Resume.antt =====
-- `_resume_ask_context` of app/api/routes/callbacks.py: the answers of a thread resume the run that
-- asked. The runner and the run are those that `slack_events` found.
use langgraph_backend.Base.{
  String, Bool, not, Option, none, some, List, ◌==◌, ◌&&◌, if◌then◌else◌, find, map, starts_with,
  ◌>>=◌,
}
use langgraph_backend.Base.Dict.{Dict, insert}
use langgraph_backend.Value.{Value, text, State, is_none, record_of}
use langgraph_backend.GraphRun.{GraphRun, Status}
use langgraph_backend.Mongo.{Collection}
use langgraph_backend.Step.{Step, is_agent}
use langgraph_backend.Guards.{persist}
use langgraph_backend.Recovery.{accumulate, last_done, seed, request_only}
use langgraph_backend.Stream.{Input, resume, nothing}
use langgraph_backend.Stream.Whole.{stream_graph_to_pause}
use langgraph_backend.Workflows.Restart.{steps_before}
use langgraph_backend.Approval.{Runner, Container}
use langgraph_backend.Stream.Notices.{Outlet}

-- LangGraph's `aupdate_state` with or without `as_node`: the runner with the new checkpoint, `none`
-- where it raises.
abbrev pub Rewind : Type 0
Rewind = Runner → State → Option String → Option Runner

abbrev pub answers_value : Dict String → Value
answers_value answers = record_of (map (λ (k, s). (k, text s)) answers)

abbrev pub is_folded : String × Value → Bool
is_folded (k, v) = starts_with k "_" && not (k == "_clarification_answers") && not (is_none v)

-- The state behind the steps ahead of the agent's, with the answers.
unfoldable pub clarified_state : List Step → GraphRun → Dict String → State
unfolding accumulate seed
clarified_state ahead run answers =
    insert "_clarification_answers" (answers_value answers)
      (seed is_folded run.state (accumulate run ahead (request_only run)))

-- run.current_step is the step of an agent: the steps ahead of it.
unfoldable pub agent_step : Runner → GraphRun → Option (List Step)
unfolding steps_before
agent_step runner run = elim run.current_step [
  | none ↦ none
  | some id ↦ elim (find (λ s. s.id == id) runner.steps) [
    | none ↦ none
    | some s ↦ if is_agent s.type then some (steps_before id runner.steps) else none
  ]
]

-- The runner and the input of the stream: an agent's step runs again from a checkpoint ahead of it.
unfoldable pub rewound : Rewind → Runner → GraphRun → Dict String → Option (Runner × Input)
unfolding agent_step clarified_state last_done
rewound rewind runner run answers = elim (agent_step runner run) [
  | none ↦ some (runner, resume (answers_value answers))
  | some ahead ↦ rewind runner (clarified_state ahead run answers) (last_done run ahead) >>= λ r.
      some (r, nothing)
]

module _ (mongo : Collection GraphRun) where
  -- The run is stored as running; an exception of the rewind ends the task behind that.
  unfoldable pub resume_ask_context :
      Outlet → Rewind → GraphRun → Runner → Dict String → Container mongo → Container mongo
  unfolding rewound stream_graph_to_pause
  resume_ask_context outlet rewind run runner answers c =
      let running = record run { status = Status.running } in
      let w = persist mongo running (record { run = running; stored = c.runs }) in
      elim (rewound rewind runner running answers) [
        | none ↦ record c { runs = w.stored }
        | some (r, input) ↦ record c {
          runs = (stream_graph_to_pause mongo outlet r.steps r.graph input r.values w).0.stored;
        }
      ]
