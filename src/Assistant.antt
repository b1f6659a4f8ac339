-- ===== src/Assistant.antt =====
-- The chat assistant of app/infrastructure/orchestration/default_workflow.py: the tools that its
-- model calls on the definitions of workflows and of agents.
-- Here: how a tool finds the definition that the model named, by id, name or part of either.
pub mod Workflows
pub mod Agents
use langgraph_backend.Base.{
  String, Bool, true, false, Option, none, some, List, [], ◌∷◌, ◌==◌, ◌||◌, if◌then◌else◌, find,
  keep, map,
}
use langgraph_backend.Texts.{◌<>◌, joined}
use langgraph_backend.Executor.Judge.{Cases, contains}

-- What is listed of a definition.
pub record Entry : Type 0 where
  pub id : String
  pub name : String

pub data Resolved : Type 0 where
  resolved : String → Resolved
  unresolved : String → Resolved

-- "id (name)"
abbrev pub described : Entry → String
described e = e.id <> (" (" <> (e.name <> ")"))

unfoldable pub describe_all : List Entry → String
unfolding joined
describe_all entries = joined ", " (map described entries)

-- The messages where nothing matches, of the workflows and of the agents.
abbrev pub no_workflow : String → List Entry → String
no_workflow query entries =
    let available = describe_all entries in
    "Workflow '"
    <> (query <> ("' not found. Available: " <> (if available == "" then "none" else available)))

abbrev pub no_agent : String → List Entry → String
no_agent query entries =
    "No agent found matching '" <> (query <> ("'. Available: " <> describe_all entries))

module _ (python : Cases) where
  abbrev pub is_id : String → Entry → Bool
  is_id query e = e.id == query

  abbrev pub has_name : String → Entry → Bool
  has_name query e = python.lower e.name == python.lower query

  abbrev pub mentions : String → Entry → Bool
  mentions query e =
      contains (python.lower query) (python.lower e.id)
      || contains (python.lower query) (python.lower e.name)

  -- One match is taken; several are named.
  unfoldable pub resolve_part : String → List Entry → Resolved
  unfolding describe_all
  resolve_part missing [] = unresolved missing
  resolve_part missing (e ∷ []) = resolved e.id
  resolve_part missing (e ∷ f ∷ es) =
      unresolved ("Ambiguous — multiple matches: " <> describe_all (e ∷ f ∷ es))

  unfoldable pub resolve_id : String → String → List Entry → Resolved
  unfolding resolve_part
  resolve_id missing query entries = elim (find (is_id query) entries) [
    | some e ↦ resolved e.id
    | none ↦ elim (find (has_name query) entries) [
      | some e ↦ resolved e.id
      | none ↦ resolve_part missing (keep (mentions query) entries)
    ]
  ]
