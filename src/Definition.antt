-- ===== src/Definition.antt =====
-- app/domain/models/workflow_definition.py: a workflow definition, without its timestamps.
pub mod Backend
use langgraph_backend.Base.{String, Bool, true, false, List, [], ◌∷◌, ◌++◌, map}
use langgraph_backend.Value.{Value, text, flag, array, items, State, fields, object, record_of}

pub record WorkflowDefinition : Type 0 where
  pub id : String
  pub name : String
  pub description : String
  pub steps : List State
  pub ui : State
  pub readonly : Bool
  pub use_meta_llm : Bool

abbrev ui_entry : State → State
ui_entry [] = []
ui_entry (kv ∷ ui) = ("ui", record_of (kv ∷ ui)) ∷ []

-- The raw definition, as a run keeps it.
unfoldable pub to_raw_dict : WorkflowDefinition → State
to_raw_dict d =
    ("id", text d.id)
    ∷ ("name", text d.name)
    ∷ ("description", text d.description)
    ∷ ("steps", array (items (map record_of d.steps)))
    ∷ (ui_entry d.ui ++ ("use_meta_llm", flag d.use_meta_llm) ∷ [])
