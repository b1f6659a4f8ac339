-- ===== src/Execute.antt =====
-- The `execute` node of app/infrastructure/orchestration/yaml_graph.py, which hands a task to
-- OpenHands. The adapter is a parameter: it reports conversation ids on its way, and answers or
-- raises; it is missing where OpenHands is not configured.
pub mod Laws
use langgraph_backend.Base.{
  String, Bool, true, false, not, Option, none, some, List, [], ◌∷◌, ◌==◌, if◌then◌else◌, get_or,
}
use langgraph_backend.Base.Dict.{insert, update}
use langgraph_backend.Texts.{◌<>◌}
use langgraph_backend.Value.{Value, null, text, State, truthy, get, record_of, dict_or_empty}
use langgraph_backend.GraphRun.{GraphRun}
use langgraph_backend.Mongo.{Collection}
use langgraph_backend.Step.{Step, Outcome, returned, raised}
use langgraph_backend.Guards.{World, persist}
use langgraph_backend.Node.{Reply, answered, failed, Render, one, error_record}

-- What OpenHands is asked.
pub record Task : Type 0 where
  pub repo : String
  pub instructions : String
  pub existing_conv_id : Value
  pub branch : Option String

-- The ids that it reports, in their order, and its answer.
abbrev pub OpenHands : Type 0
OpenHands = Task → List String × Reply State

abbrev pub conv_id_key : Step → String
conv_id_key step = "_openhands_conv_" <> step.id

-- `if x` for an optional text
abbrev pub named : Option String → Option String
named none = none
named (some s) = if s == "" then none else some s

-- step.get("output_key", f"{step_id}_result")
abbrev pub result_key : Step → String
result_key step = get_or step.output_key (step.id <> "_result")

abbrev pub conv_map : State → State
conv_map state = dict_or_empty (get "_conv_map" state)

-- The conversation to resume, for all steps of the step's conversation or for the step alone.
unfoldable pub existing_conversation : Step → State → Value
existing_conversation step state = elim (named step.conversation_id) [
  | some id ↦ get id (conv_map state)
  | none ↦ get (conv_id_key step) state
]

unfoldable pub task_of : Render → Step → State → Task
unfolding existing_conversation
task_of render step state = record {
  repo = render step.repo_template state;
  instructions = render step.instructions_template state;
  existing_conv_id = existing_conversation step state;
  branch = elim (named step.branch_template) [ none ↦ none | some t ↦ some (render t state) ];
}

-- The entries of the conversation's id, with the map that they extend.
unfoldable pub conversation_entries : Step → State → Value → State
conversation_entries step known oh_id = elim (named step.conversation_id) [
  | none ↦ (conv_id_key step, oh_id) ∷ []
  | some id ↦ (conv_id_key step, oh_id) ∷ ("_conv_map", record_of (insert id oh_id known)) ∷ []
]

unfoldable pub success_output : Step → State → State → State
unfolding conversation_entries
success_output step state result =
    let oh_id = get "conversation_id" result in
    let output = (result_key step, record_of result) ∷ [] in
    if truthy oh_id
    then update output (conversation_entries step (conv_map state) oh_id)
    else output

unfoldable pub failure_output : Step → String → Outcome
failure_output step e =
    if step.stop_on_failure
    then raised e
    else returned (insert "__failed_step__" (text step.id) ((result_key step, error_record e) ∷ []))

module _ (mongo : Collection GraphRun) where
  -- `_save_conv_id`
  unfoldable pub save_conv_id : Step → String → World mongo → World mongo
  unfolding conversation_entries
  save_conv_id step oh_id w =
      persist mongo
        (record w.run {
          state =
              update w.run.state (conversation_entries step (conv_map w.run.state) (text oh_id));
        })
        w

  unfoldable pub save_conv_ids : Step → List String → World mongo → World mongo
  unfolding save_conv_id
  save_conv_ids step [] w = w
  save_conv_ids step (oh_id ∷ ids) w = save_conv_ids step ids (save_conv_id step oh_id w)

  unfoldable pub execute_node :
      Render → Option OpenHands → Step → State → World mongo → Outcome × World mongo
  unfolding task_of success_output failure_output save_conv_ids
  execute_node render none step state w =
      (one (result_key step) (text "OpenHands not configured"), w)
  execute_node render (some openhands) step state w =
      let (ids, answer) = openhands (task_of render step state) in
      (
        elim answer [
          | answered result ↦ returned (success_output step state result)
          | failed e ↦ failure_output step e
        ],
        save_conv_ids step ids w,
      )
