-- ===== src/Wiring/Laws.antt =====
-- What the graph of a definition promises.
use langgraph_backend.Base.{
  String, ◌≡◌, Bool, true, not, some, List, [], ◌∷◌, ◌==◌, ◌||◌, any, length, ltb, All, arith,
  eq_iff, Option-cases, Bool-cases, List-cases, inl, inr, is_some,
}
use langgraph_backend.Base.Dict.{Dict, lookup, insert, lookup-insert}
use langgraph_backend.Value.{State}
use langgraph_backend.Step.{Step, Route}
use langgraph_backend.GraphRun.{GraphRun}
use langgraph_backend.Mongo.{Collection}
use langgraph_backend.Guards.{World}
use langgraph_backend.Router.{Evaluator, Delays, select, holds, router}
use langgraph_backend.Wiring.{
  Target, node, finish, Edge, direct, conditional, is_multi_output, is_parallel, target, route_map,
  edges_of, step_ids,
}

-- A target that is the end or a node of the graph.
abbrev pub exists_in : List String → Target → Bool
exists_in ids finish = true
exists_in ids (node i) = any (λ j. j == i) ids

abbrev pub Leads : List String → Edge → Type 0
Leads ids (direct t) = exists_in ids t ≡ true
Leads ids (conditional routes m) =
    (k : String) (t : Target) → lookup k m ≡ some t → exists_in ids t ≡ true

abbrev pub LeadsAll : List String → String × List Edge → Type 0
LeadsAll ids (i, es) = All (Leads ids) es

abbrev Covers : List String → List Step → Type 0
Covers ids steps = All (λ i. any (λ j. j == i) ids ≡ true) (step_ids steps)

-- A step is refused exactly if it is not parallel, its type has one output, and it has more than
-- one route.
pub edges_of_defined :
    (ids : List String) (step : Step) (rest : List Step)
    → is_some (edges_of ids step rest)
      ≡ (is_parallel step.type || is_multi_output step.type || not (ltb 1 (length step.routes)))
unfolding edges_of
edges_of_defined ids step rest = elim (List-cases step.routes) [
  | inl e ↦ ground arith
  | inr (r, rs, e) ↦ ground arith
]

lookup-route_map_kept :
    (ids : List String) (routes : List Route) (m : Dict Target) (k : String)
    → lookup k m ≡ some (target ids k)
    → lookup k (route_map ids routes m) ≡ some (target ids k)
unfolding route_map
lookup-route_map_kept ids [] m k h = h
lookup-route_map_kept ids (r ∷ rs) m k h =
    lookup-route_map_kept ids rs (insert r.next (target ids r.next) m) k
      (ground (arith, lookup-insert r.next k (target ids r.next) m, eq_iff r.next k))

select_mapped :
    (python : Evaluator) (state : State) (ids : List String) (routes : List Route) (chosen : Route)
    (m : Dict Target)
    → select python state routes ≡ some chosen
    → lookup chosen.next (route_map ids routes m) ≡ some (target ids chosen.next)
unfolding route_map select
select_mapped python state ids [] chosen m h = cc
select_mapped python state ids (r ∷ rs) chosen m h = elim (Bool-cases (holds python state r.when)) [
  | inl e ↦ lookup-route_map_kept ids rs (insert r.next (target ids r.next) m) chosen.next (
      ground
        (arith, lookup-insert r.next chosen.next (target ids r.next) m, eq_iff r.next chosen.next))
  | inr e ↦
      select_mapped python state ids rs chosen (insert r.next (target ids r.next) m) (ground arith)
]

-- Whatever the state, the node name that the router of a conditional edge returns is a key of the
-- edge's map, and the map leads it to that node if the graph has it and else to END.
pub router-mapped :
    (mongo : Collection GraphRun) (delays : Delays) (python : Evaluator) (source_id : String)
    (ids : List String) (routes : List Route) (state : State) (w w' : World mongo) (name : String)
    → router mongo delays python source_id routes state w ≡ some (name, w')
    → lookup name (route_map ids routes []) ≡ some (target ids name)
unfolding router
router-mapped mongo delays python source_id ids routes state w w' name h =
    elim (Option-cases (select python state routes)) [
      | inl e ↦ ground arith
      | inr (chosen, e) ↦ ground (arith, select_mapped python state ids routes chosen [] e)
    ]
