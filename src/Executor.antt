-- ===== src/Executor.antt =====
-- app/steps/agent_executor.py: the execution of an agent step. Its input is made of the workflow's
-- state, the agent is started and polled, its output is checked, judged and mapped back to the state.
pub mod Mapping
pub mod Judge
pub mod Poll
pub mod Output
pub mod Gates
pub mod Config
pub mod Start
pub mod Whole
use langgraph_backend.Base.{ℕ, String, Option, List}
use langgraph_backend.Base.Dict.{Dict}
use langgraph_backend.Value.{Value, State}

-- A variable of the agent's environment: from the configuration, or with its value.
pub data Source : Type 0 where
  from_config given : String → Source
  unset : Source

-- What the executor reads of a step's raw definition; an absent mapping is [].
pub record AgentStep : Type 0 where
  pub id : String
  pub agent_id : String
  pub runtime_override : Option String
  pub input_mapping : Dict String
  pub output_mapping : Dict String
  pub output_key : Option String
  pub success_criteria : Option String
  pub fail_criteria : Option String
  pub compression_level : Option String
  pub env_vars : List (String × Source)

-- What an execution comes to: a state update; a rejection by the quality gate, with its message,
-- the output mapped so far and the reason; another exception; or LangGraph's interrupt.
pub data Executed : Type 0 where
  returned : State → Executed
  rejected : String → State → String → Executed
  raised : String → Executed
  interrupted : Value → Executed
