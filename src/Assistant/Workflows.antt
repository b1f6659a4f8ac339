-- ===== src/Assistant/Workflows.antt =====
-- The tools of app/infrastructure/orchestration/default_workflow.py on workflow definitions and on
-- runs. A reply is the text that the tool returns, or that it raises; `refresh_runner` is passed.
use langgraph_backend.Base.{
  true, ℕ, ◌+◌, String, false, Option, none, some, List, [], ◌∷◌, if◌then◌else◌, map, length,
  get_or,
}
use langgraph_backend.Base.Dict.{Dict, lookup, remove}
use langgraph_backend.Value.{text, State}
use langgraph_backend.Texts.{◌<>◌, joined, strip}
use langgraph_backend.GraphRun.{GraphRun, new_run}
use langgraph_backend.Mongo.{Collection}
use langgraph_backend.Definition.{WorkflowDefinition}
use langgraph_backend.Definition.Backend.{get, create, update, delete}
use langgraph_backend.Recovery.{Build}
use langgraph_backend.Stream.{Input, initial}
use langgraph_backend.Approval.{Runner}
use langgraph_backend.Executor.Judge.{Cases}
use langgraph_backend.Workflows.Definitions.{refresh_runner}
use langgraph_backend.Workflows.Tasks.{init_step_statuses}
use langgraph_backend.Assistant.{Entry, Resolved, resolved, unresolved, resolve_id, no_workflow}

pub data Reply : Type 0 where
  said : String → Reply
  raised : Reply

-- `json.loads` of the steps: the text of its error, a value that is no array, or an array of
-- objects. Arrays of anything else are left out.
pub data StepsJson : Type 0 where
  invalid : String → StepsJson
  no_array : StepsJson
  steps : List State → StepsJson

-- What a runner's id, name and description are.
pub record Shown : Type 0 where
  pub entry : Entry
  pub description : String

abbrev pub quoted : String → String → String → String
quoted before id after = before <> ("'" <> (id <> ("'" <> after)))

unfoldable pub definition_lines : List Shown → List String
unfolding strip
definition_lines [] = []
definition_lines (d ∷ ds) =
    ("- **" <> (d.entry.id <> ("** (" <> (d.entry.name <> ("): " <> strip d.description)))))
    ∷ definition_lines ds

unfoldable pub runners_of : Dict Runner → List Runner
runners_of [] = []
runners_of ((k, r) ∷ rs) = r ∷ runners_of rs

module _ (mongo : Collection WorkflowDefinition) (build : Build) (python : Cases)
    (shown : Runner → Shown) (decimal : ℕ → String) where
  open mongo use {Store}

  -- The registry's runners and, where a backend is configured, the definitions.
  pub record Desk : Type 0 where
    pub registry : Dict Runner
    pub workflow_backend : Option Store

  abbrev pub listed : Dict Runner → List Shown
  unfolding runners_of
  listed registry = map shown (runners_of registry)

  unfoldable pub list_workflows : Desk → String
  unfolding listed definition_lines joined
  list_workflows desk = elim (definition_lines (listed desk.registry)) [
    | [] ↦ "No workflows are currently configured."
    | line ∷ lines ↦ joined "\n" (line ∷ lines)
  ]

  unfoldable pub resolve_workflow_id : String → Desk → Resolved
  unfolding listed resolve_id
  resolve_workflow_id query desk =
      let entries = map (λ (s : Shown). s.entry) (listed desk.registry) in
      resolve_id python (no_workflow query entries) query entries

  -- The new definition is stored; then its runner is built, which may raise.
  unfoldable pub refreshed_desk : String → String → Store → Desk → Reply × Desk
  unfolding refresh_runner
  refreshed_desk message workflow_id s desk =
      elim (refresh_runner mongo build workflow_id s desk.registry) [
        | none ↦ (raised, record desk { workflow_backend = some s })
        | some registry ↦ (said message, record { registry = registry; workflow_backend = some s })
      ]

  abbrev pub new_definition : String → String → String → List State → WorkflowDefinition
  new_definition workflow_id name description ss = record {
    id = workflow_id;
    name = name;
    description = description;
    steps = ss;
    ui = [];
    readonly = false;
    use_meta_llm = true;
  }

  unfoldable pub create_steps : String → String → String → List State → Store → Desk → Reply × Desk
  unfolding get create refreshed_desk
  create_steps workflow_id name description ss s desk = elim (get mongo workflow_id s) [
    | some d ↦ (
      said (quoted "Workflow " workflow_id " already exists. Use update_workflow to modify it."),
      desk,
    )
    | none ↦
        refreshed_desk
          (quoted "Workflow " workflow_id
            (" created with " <> (decimal (length ss) <> " step(s).")))
          workflow_id (create mongo (new_definition workflow_id name description ss) s) desk
  ]

  unfoldable pub create_workflow : String → String → String → StepsJson → Desk → Reply × Desk
  unfolding create_steps
  create_workflow workflow_id name description json desk = elim desk.workflow_backend [
    | none ↦ (said "Workflow creation unavailable: no persistent backend configured.", desk)
    | some s ↦ elim json [
      | invalid message ↦ (said ("Invalid steps_json: " <> message), desk)
      | no_array ↦ (said "steps_json must be a JSON array.", desk)
      | steps ss ↦ create_steps workflow_id name description ss s desk
    ]
  ]

  -- The definition that the query names and that may be changed, with its id and the store.
  unfoldable pub with_definition :
      String
      → String
      → String
      → (String → WorkflowDefinition → Store → Reply × Desk)
      → Desk
      → Reply × Desk
  unfolding resolve_workflow_id get
  with_definition unavailable refusal query body desk = elim desk.workflow_backend [
    | none ↦ (said unavailable, desk)
    | some s ↦ elim (resolve_workflow_id query desk) [
      | unresolved message ↦ (said message, desk)
      | resolved id ↦ elim (get mongo id s) [
        | none ↦ (said (quoted "Workflow " id " not found."), desk)
        | some d ↦
            if d.readonly
            then (said (quoted "Workflow " id (" is read-only and cannot be " <> refusal)), desk)
            else body id d s
      ]
    ]
  ]

  abbrev pub renamed : Option String → Option String → WorkflowDefinition → WorkflowDefinition
  renamed name description d = record d {
    name = get_or name d.name;
    description = get_or description d.description;
  }

  unfoldable pub stored_update : String → WorkflowDefinition → Store → Desk → Reply × Desk
  unfolding update refreshed_desk
  stored_update id d s desk =
      refreshed_desk (quoted "Workflow " id " updated.") id (update mongo id d s) desk

  unfoldable pub update_workflow :
      String → Option String → Option String → Option StepsJson → Desk → Reply × Desk
  unfolding with_definition stored_update
  update_workflow query name description json desk =
      with_definition "Workflow updates unavailable: no persistent backend configured." "modified."
        query
        (λ id d s. elim json [
          | none ↦ stored_update id (renamed name description d) s desk
          | some (invalid message) ↦ (said ("Invalid steps_json: " <> message), desk)
          | some no_array ↦ (said "steps_json must be a JSON array.", desk)
          | some (steps ss) ↦
              stored_update id (record (renamed name description d) { steps = ss }) s desk
        ])
        desk

  -- The registry's runner is taken away without `refresh_runner`.
  unfoldable pub delete_workflow : String → Desk → Reply × Desk
  unfolding with_definition delete
  delete_workflow query desk =
      with_definition "Workflow deletion unavailable: no persistent backend configured." "deleted."
        query
        (λ id d s. (
          said (quoted "Workflow " id " deleted."),
          record {
            registry = remove id desk.registry;
            workflow_backend = some (delete mongo id s);
          },
        ))
        desk

  -- What is streamed in the background.
  pub record Spawned : Type 0 where
    pub run : GraphRun
    pub runner : Runner
    pub input : Input

  -- The reply that there is no such workflow, or what is stored and streamed; the JSON of the reply
  -- names its run and its workflow.
  pub data Started : Type 0 where
    not_started : String → Started
    started : Spawned → Started

  -- The run has the id that is drawn for it.
  unfoldable pub run_workflow : String → String → String → Desk → Started
  unfolding resolve_workflow_id
  run_workflow run_id query request desk = elim (resolve_workflow_id query desk) [
    | unresolved message ↦ not_started message
    | resolved id ↦ elim (lookup id desk.registry) [
      | none ↦ not_started (quoted "Workflow " id " not found.")
      | some runner ↦ started record {
        run = new_run run_id id request (init_step_statuses runner);
        runner = runner;
        input = initial (("request", text request) ∷ []);
      }
    ]
  ]

  -- A question that is asked, with its answer among those of the interrupt.
  unfoldable pub answered_lines : ℕ → List String → Dict String → List String
  unfolding strip
  answered_lines i [] answers = []
  answered_lines i (q ∷ qs) answers =
      ("Q: " <> (q <> ("\nA: " <> strip (get_or (lookup (decimal i) answers) ""))))
      ∷ answered_lines (i + 1) qs answers

  unfoldable pub ask_user : List String → Dict String → String
  unfolding answered_lines joined
  ask_user questions answers = joined "\n" (answered_lines 0 questions answers)
