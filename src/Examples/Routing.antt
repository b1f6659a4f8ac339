-- ===== src/Examples/Routing.antt =====
-- Routers, their waits, and the edges of a graph.
use langgraph_backend.Base.{◌≡◌, refl, false, some, List, [], ◌∷◌, ltb}
use langgraph_backend.Value.{null, float}
use langgraph_backend.Step.{Route, absent, condition}
use langgraph_backend.Guards.{World}
use langgraph_backend.Router.{
  Evaluator, select, delay_of, Delays, converted, refused, router, holds, eval_condition,
}
use langgraph_backend.Router.Laws.{IsFirst, select-IsFirst, IsRouted, router-IsRouted}
use langgraph_backend.Wiring.{Graph, node, finish, direct}
use langgraph_backend.Examples.{db, fresh_run, world_of}

abbrev retry : Route
retry = record { when = condition "failed"; next = "draft"; wait_seconds = null }

abbrev default : Route
default = record { when = absent; next = "done"; wait_seconds = null }

abbrev routes : List Route
routes = retry ∷ default ∷ []

-- An evaluator that finds every condition false.
abbrev never : Evaluator
never expr state = some false

select-IsFirst_example : IsFirst never [] routes default
unfolding select holds eval_condition
select-IsFirst_example = select-IsFirst never [] routes default refl

-- The order of the non-negative floats is that of their bits.
abbrev delays : Delays
delays = record { of_value = λ v. elim v [ float b ↦ converted b | _ ↦ refused ]; less = ltb }

router-IsRouted_example :
    (w' : World db) × (router db delays never "check" routes [] (world_of fresh_run)
      ≡ some ("done", w'))
    × IsRouted db delays "check" [] default 0 (world_of fresh_run) w'
unfolding select holds eval_condition delay_of
router-IsRouted_example =
    router-IsRouted db delays never "check" routes [] (world_of fresh_run) default 0 refl refl

abbrev built : Graph
built = record {
  start = node "draft";
  edges = ("draft", direct (node "review") ∷ []) ∷ ("review", direct finish ∷ []) ∷ [];
}
