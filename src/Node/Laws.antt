-- ===== src/Node/Laws.antt =====
-- What the nodes that decide on approvals and failures promise.
use langgraph_backend.Base.{
  String, ◌≡◌, ◌≢◌, true, false, none, some, [], ◌∷◌, ◌++◌, ◌==◌, if◌then◌else◌, or_else, arith,
  eq_iff,
}
use langgraph_backend.Base.Dict.{lookup, update, lookup-insert, lookup-single, lookup-update}
use langgraph_backend.Value.{Value, array, items, State, truthy, get, list_or_empty}
use langgraph_backend.Step.{Step, Outcome, returned, raised}
use langgraph_backend.Guards.{no_fail_guard}
use langgraph_backend.Guards.Laws.{is_blocked}
use langgraph_backend.Node.{
  approval_node, approval_record, approved_key, approved_of, corrections_of, join_node,
}

-- The update of an outcome, empty where it raised.
abbrev pub update_of : Outcome → State
update_of (returned r) = r
update_of (raised e) = []

-- The audit trail with this decision behind it.
abbrev pub grown_history : Step → State → State → Value
grown_history step decision state =
    array
      (items (list_or_empty (get "approval_history" state) ++ approval_record step decision ∷ []))

-- What an approval writes, field by field: a correction of that name if there is one; else, under
-- "approval_history", the old trail with one record behind it; else the reason, and the decision
-- under the step's approval key. It writes nothing else.
pub approval_node_lem :
    (step : Step) (decision state : State) (k : String)
    → lookup k (update_of (approval_node step decision state))
      ≡ or_else (lookup k (corrections_of decision)) (
          if "approval_history" == k
          then some (grown_history step decision state)
          else if "reject_reason" == k
          then some (get "reason" decision)
          else if approved_key step == k
          then some (approved_of decision)
          else none)
unfolding approval_node
approval_node_lem step decision state k = simp (lookup-update, lookup-insert, lookup-single)

-- Under the AND policy a join that is reached in time with any branch failed writes its own
-- failure, and over that state every other step but a join is blocked.
pub join_node_blocks :
    (str : Value → String) (step later : Step) (state : State)
    → step.failure_policy ≡ "and"
    → step.id ≢ ""
    → later.id ≢ step.id
    → no_fail_guard later.type ≡ false
    → truthy (get "__failed_step__" state) ≡ true
    → is_blocked later (update state (update_of (join_node str false step state))) ≡ true
unfolding join_node lookup
join_node_blocks str step later state p ne other g f = ground (
  arith,
  eq_iff step.failure_policy "and",
  eq_iff step.id "",
  eq_iff step.id later.id,
  lookup-update "__failed_step__" state (update_of (join_node str false step state)),
)
