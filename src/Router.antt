-- ===== src/Router.antt =====
-- `_make_router_fn` of app/infrastructure/orchestration/yaml_graph.py: the choice of a route, its
-- wait, and the entry of the routing journal.
pub mod Laws
use langgraph_backend.Base.{
  ℕ, String, Bool, true, false, not, Option, none, some, List, [], ◌∷◌, ◌++◌, ◌==◌, if◌then◌else◌,
  starts_with,
}
use langgraph_backend.Texts.{replace, strip, from}
use langgraph_backend.Value.{Value, State, truthy, get}
use langgraph_backend.GraphRun.{GraphRun, EventKind, WaitingTransition}
use langgraph_backend.Mongo.{Collection}
use langgraph_backend.Mongo.Runs.{save}
use langgraph_backend.Step.{Route, When, absent, null_given, condition}
use langgraph_backend.Guards.{World, persist, visits}

-- The rewriting of operators in JavaScript's style.
unfoldable pub to_python : String → String
unfolding replace
to_python when =
    replace "===" " == " (replace "!==" " != " (replace "||" " or " (replace "&&" " and " when)))

-- The fallback: a key of the state, or "!" and a key.
unfoldable pub key_lookup : String → State → Bool
unfolding strip from
key_lookup expr state =
    let e = strip expr in
    if starts_with e "!" then not (truthy (get (strip (from 1 e)) state)) else truthy (get e state)

-- Python's own evaluator: `none` where the text does not parse, holds an unsafe node of the syntax
-- tree, or raises; else the truth of its value.
abbrev pub Evaluator : Type 0
Evaluator = String → State → Option Bool

unfoldable pub eval_condition : Evaluator → String → State → Bool
unfolding to_python key_lookup
eval_condition python when state =
    let expr = to_python when in
    elim (python expr state) [ some b ↦ b | none ↦ key_lookup expr state ]

unfoldable pub holds : Evaluator → State → When → Bool
holds python state absent = true
holds python state null_given = true
holds python state (condition when) = eval_condition python when state

-- `_select`; `none` is the ValueError that no route matches.
unfoldable pub select : Evaluator → State → List Route → Option Route
select python state [] = none
select python state (r ∷ rs) =
    let rest = select python state rs in if holds python state r.when then some r else rest

-- What float(v) comes to: a float, by its bits, an exception that the router catches, or the
-- OverflowError of an integer that is too large, which it does not.
pub data Conversion : Type 0 where
  converted : ℕ → Conversion
  refused overflows : Conversion

-- What the wait does with floats: `of_value` is float(v).
pub record Delays : Type 0 where
  pub of_value : Value → Conversion
  pub less : ℕ → ℕ → Bool

abbrev pub zero_delay : ℕ
zero_delay = 0

-- _MAX_ROUTE_WAIT_SECONDS, 3600.0
abbrev pub max_route_wait : ℕ
max_route_wait = 0x40AC200000000000

module _ (delays : Delays) where
  open delays use {of_value, less}

  abbrev at_least_zero : ℕ → ℕ
  at_least_zero d = if less d zero_delay then zero_delay else d

  abbrev at_most_max : ℕ → ℕ
  at_most_max d = if less max_route_wait d then max_route_wait else d

  -- The seconds to sleep on the chosen route, 0 where it gives none; `none` is the OverflowError.
  unfoldable pub delay_of : Value → Option ℕ
  delay_of wait =
      if truthy wait
      then (elim (of_value wait) [
        | overflows ↦ none
        | refused ↦ some zero_delay
        | converted d ↦ some (at_most_max (at_least_zero d))
      ])
      else some zero_delay

abbrev pub condition_text : When → String
condition_text (condition when) = when
-- str(None)
condition_text null_given = "None"
condition_text absent = ""

module _ (mongo : Collection GraphRun) where
  -- The run object and the store while the router sleeps: the wait is shown.
  unfoldable pub start_wait : String → Route → ℕ → World mongo → World mongo
  start_wait source_id chosen delay w =
      persist mongo
        (record w.run {
          waiting_transition =
              some (record { source = source_id; target = chosen.next; wait_seconds = delay });
        })
        w

  -- The `finally` block behind the sleep, which runs on a cancellation too.
  unfoldable pub stop_wait : World mongo → World mongo
  stop_wait w = persist mongo (record w.run { waiting_transition = none }) w

  unfoldable pub log_route : String → State → Route → World mongo → World mongo
  log_route source_id state chosen w =
      persist mongo
        (record w.run {
          routing_log =
              w.run.routing_log
              ++ record {
                event = EventKind.route;
                node = source_id;
                target = chosen.next;
                condition = condition_text chosen.when;
                iteration = visits source_id state;
              }
                ∷ [];
        })
        w

module _ (mongo : Collection GraphRun) (delays : Delays) where
  -- The router from its call to its return, with an undisturbed sleep; `none` is an exception: the
  -- ValueError of no route, or the OverflowError of a wait.
  unfoldable pub router :
      Evaluator → String → List Route → State → World mongo → Option (String × World mongo)
  unfolding start_wait stop_wait log_route delay_of
  router python source_id routes state w = elim (select python state routes) [
    | none ↦ none
    | some chosen ↦ elim (delay_of delays chosen.wait_seconds) [
      | none ↦ none
      | some delay ↦
          let rested =
            if delays.less zero_delay delay
            then stop_wait mongo (start_wait mongo source_id chosen delay w)
            else w in
          some (chosen.next, log_route mongo source_id state chosen rested)
    ]
  ]
