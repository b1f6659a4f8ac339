-- ===== src/Router/Laws.antt =====
-- What the router promises: the first route that holds, a bounded wait, no wait left showing, and
-- one entry of the journal.
use langgraph_backend.Base.{
  ℕ, String, ◌≡◌, refl, Bool, true, false, none, some, List, [], ◌∷◌, ◌++◌, any, if◌then◌else◌, All,
  arith, eq_iff, Bool-cases, inl, inr, is_some, ap,
}
use langgraph_backend.Value.{Value, State}
use langgraph_backend.GraphRun.{GraphRun, RoutingEvent, EventKind}
use langgraph_backend.Mongo.{Collection}
use langgraph_backend.Step.{Route, When, absent, null_given, condition}
use langgraph_backend.Guards.{World, visits}
use langgraph_backend.Router.{
  Evaluator, holds, select, Delays, zero_delay, max_route_wait, delay_of, condition_text, router,
  log_route, start_wait, stop_wait,
}

abbrev pub is_default : When → Bool
is_default absent = true
is_default null_given = true
is_default (condition c) = false

-- The chosen route holds in the state, and those before it do not; `rest` stands behind it.
pub record IsFirst (python : Evaluator) (state : State) (routes : List Route) (chosen : Route)
    : Type 0 where
  pub before : List Route
  pub rest : List Route
  pub split : routes ≡ before ++ chosen ∷ rest
  pub chosen_holds : holds python state chosen.when ≡ true
  pub others_fail : All (λ r. holds python state r.when ≡ false) before

-- The router chooses the first route whose condition holds.
pub select-IsFirst :
    (python : Evaluator) (state : State) (routes : List Route) (chosen : Route)
    → select python state routes ≡ some chosen
    → IsFirst python state routes chosen
unfolding select
select-IsFirst python state [] chosen h = cc
select-IsFirst python state (r ∷ rs) chosen h = elim (Bool-cases (holds python state r.when)) [
  | inl e ↦ record {
    before = [];
    rest = rs;
    split = ground arith;
    chosen_holds = ground arith;
    others_fail = tt;
  }
  | inr e ↦
      let later = select-IsFirst python state rs chosen (ground arith) in
      record {
        before = r ∷ later.before;
        rest = later.rest;
        split = ap (λ l. r ∷ l) later.split;
        chosen_holds = later.chosen_holds;
        others_fail = (e, later.others_fail);
      }
]

-- The router raises exactly in the states in which no route's condition holds; a default route
-- holds in every state.
pub select_defined :
    (python : Evaluator) (state : State) (routes : List Route)
    → is_some (select python state routes) ≡ any (λ r. holds python state r.when) routes
unfolding select
select_defined python state [] = refl
select_defined python state (r ∷ rs) = ground (arith, select_defined python state rs)

-- The order of floats, as far as the clamping relies on it.
pub record OrdersDelays (delays : Delays) : Type 0 where
  pub zero_not_below : delays.less zero_delay zero_delay ≡ false
  pub max_not_below : delays.less max_route_wait max_route_wait ≡ false
  pub max_above_zero : delays.less max_route_wait zero_delay ≡ false

-- Whatever `wait_seconds` holds, the router never sleeps for a negative time, nor for longer than
-- an hour, if the order of floats puts neither of 0 and an hour below itself, nor the hour below
-- 0.
pub delay_bounded :
    (delays : Delays) (wait : Value) (delay : ℕ)
    → OrdersDelays delays
    → delay_of delays wait ≡ some delay
    → (delays.less delay zero_delay ≡ false) × (delays.less max_route_wait delay ≡ false)
unfolding delay_of
delay_bounded delays wait delay o h = ground arith

abbrev pub route_event : String → State → Route → RoutingEvent
route_event source_id state chosen = record {
  event = EventKind.route;
  node = source_id;
  target = chosen.next;
  condition = condition_text chosen.when;
  iteration = visits source_id state;
}

-- What a call of the router that returned has done.
pub record IsRouted (mongo : Collection GraphRun) (delays : Delays) (source_id : String)
    (state : State) (chosen : Route) (delay : ℕ) (w w' : World mongo) : Type 0 where
  pub logged : w'.run.routing_log ≡ w.run.routing_log ++ route_event source_id state chosen ∷ []
  pub step_kept : w'.run.current_step ≡ w.run.current_step
  pub statuses_kept : w'.run.step_statuses ≡ w.run.step_statuses
  pub not_waiting : delays.less zero_delay delay ≡ true → w'.run.waiting_transition ≡ none
  pub stored : mongo.find_one w'.run.id w'.stored ≡ some w'.run

-- Where a route is chosen and its wait does not overflow the floats, the router returns the route's
-- target, and has logged one entry for the chosen route behind the journal, has stored
-- the run as it then is, shows no wait if it slept, and has left the step statuses alone.
pub router-IsRouted :
    (mongo : Collection GraphRun) (delays : Delays) (python : Evaluator) (source_id : String)
    (routes : List Route) (state : State) (w : World mongo) (chosen : Route) (delay : ℕ)
    → select python state routes ≡ some chosen
    → delay_of delays chosen.wait_seconds ≡ some delay
    → (w' : World mongo) × (router mongo delays python source_id routes state w
        ≡ some (chosen.next, w'))
      × IsRouted mongo delays source_id state chosen delay w w'
unfolding router log_route start_wait stop_wait
router-IsRouted mongo delays python source_id routes state w chosen delay h waits = (
  log_route mongo source_id state chosen rested,
  rw (h, router) (rw (waits, router) refl),
  record {
    logged = ground arith;
    step_kept = ground arith;
    statuses_kept = ground arith;
    not_waiting = λ slept. ground arith;
    stored = ground (
      arith,
      mongo.find-replace rested.run.id final.run rested.stored rested.run.id,
      eq_iff rested.run.id rested.run.id,
    );
  },
)
  where
    rested : World mongo
    rested =
        if delays.less zero_delay delay
        then stop_wait mongo (start_wait mongo source_id chosen delay w)
        else w

    final : World mongo
    final = log_route mongo source_id state chosen rested
