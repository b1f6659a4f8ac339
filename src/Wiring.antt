-- ===== src/Wiring.antt =====
-- `YamlGraphRunner._build` of app/infrastructure/orchestration/yaml_graph.py: which edges the graph
-- gets for the steps of a definition.
pub mod Laws
use langgraph_backend.Base.{
  ℕ, String, Bool, true, false, not, Option, none, some, List, [], ◌∷◌, map, ◌==◌, ◌&&◌, any,
  length, if◌then◌else◌, ltb,
}
use langgraph_backend.Base.Dict.{Dict, insert}
use langgraph_backend.Value.{truthy}
use langgraph_backend.Step.{Step, StepType, Route, When, absent}

-- Where an edge leads: a node, or LangGraph's END.
pub data Target : Type 0 where
  node : String → Target
  finish : Target

-- `add_edge(sid, target)` and `add_conditional_edges(sid, router, route_map)`.
pub data Edge : Type 0 where
  direct : Target → Edge
  conditional : List Route → Dict Target → Edge

abbrev pub is_multi_output : StepType → Bool
is_multi_output StepType.llm_structured = true
is_multi_output StepType.switch = true
is_multi_output StepType.langgraph_agent = true
is_multi_output StepType.claude_agent = true
is_multi_output StepType.human_approval = true
is_multi_output _ = false

abbrev pub is_parallel : StepType → Bool
is_parallel StepType.parallel = true
is_parallel _ = false

abbrev pub is_absent : When → Bool
is_absent absent = true
is_absent _ = false

-- `t if t in all_ids else END`
unfoldable pub target : List String → String → Target
target all_ids t = if any (λ i. i == t) all_ids then node t else finish

-- The next step of the list, or END.
unfoldable pub following : List Step → Target
following [] = finish
following (s ∷ steps) = node s.id

unfoldable pub route_map : List String → List Route → Dict Target → Dict Target
unfolding target
route_map all_ids [] m = m
route_map all_ids (r ∷ rs) m = route_map all_ids rs (insert r.next (target all_ids r.next) m)

abbrev pub is_direct : List Route → Bool
is_direct (r ∷ []) = is_absent r.when && not (truthy r.wait_seconds)
is_direct _ = false

-- The one edge, or the conditional edges, of routes that are not empty.
unfoldable pub route_edge : List String → Route → List Route → Edge
unfolding target route_map
route_edge all_ids r rs =
    if is_direct (r ∷ rs)
    then direct (target all_ids r.next)
    else conditional (r ∷ rs) (route_map all_ids (r ∷ rs) [])

-- The edges of a step that has routes; `none` is the ValueError.
unfoldable pub routed : List String → StepType → List Route → Option (List Edge)
unfolding route_edge
routed all_ids type [] = some []
routed all_ids type (r ∷ rs) =
    if not (is_multi_output type) && ltb 1 (length (r ∷ rs))
    then none
    else some (route_edge all_ids r rs ∷ [])

-- A parallel step leads to all of its targets, or onward where it names none.
unfoldable pub fan_out : List String → Target → List String → List Edge
unfolding target
fan_out all_ids next [] = direct next ∷ []
fan_out all_ids next (t ∷ []) = direct (target all_ids t) ∷ []
fan_out all_ids next (t ∷ u ∷ ts) = direct (target all_ids t) ∷ fan_out all_ids next (u ∷ ts)

-- A step without routes leads to its `next`, where that is given, or onward.
unfoldable pub onward : List String → Target → Option String → Target
unfolding target
onward all_ids next none = next
onward all_ids next (some s) = if s == "" then next else target all_ids s

abbrev pub has_routes : List Route → Bool
has_routes [] = false
has_routes (r ∷ rs) = true

-- The edges out of one step, with the steps that stand behind it.
unfoldable pub edges_of : List String → Step → List Step → Option (List Edge)
unfolding following routed fan_out onward
edges_of all_ids step rest =
    if is_parallel step.type
    then some (fan_out all_ids (following rest) step.targets)
    else if has_routes step.routes
    then routed all_ids step.type step.routes
    else some (direct (onward all_ids (following rest) step.next) ∷ [])

-- The edges of one step before those of the later steps, unless either raises.
abbrev pub wired :
    String
    → Option (List Edge)
    → Option (List (String × List Edge))
    → Option (List (String × List Edge))
wired id none more = none
wired id (some es) none = none
wired id (some es) (some more) = some ((id, es) ∷ more)

-- The loop over the steps.
unfoldable pub wire : List String → List Step → Option (List (String × List Edge))
wire all_ids [] = some []
wire all_ids (step ∷ steps) = wired step.id (edges_of all_ids step steps) (wire all_ids steps)

pub record Graph : Type 0 where
  pub start : Target
  pub edges : List (String × List Edge)

-- [s["id"] for s in self._steps]
abbrev pub step_ids : List Step → List String
step_ids = map (λ s. s.id)

-- `_build`; `none` is its ValueError.
unfoldable pub build : List Step → Option Graph
unfolding wire edges_of
build steps = elim (wire (step_ids steps) steps) [
  | none ↦ none
  | some edges ↦ some (record { start = following steps; edges = edges })
]
