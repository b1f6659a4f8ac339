-- ===== src/Guards/Loops.antt =====
-- The loop guard bounds how often a step passes.
use langgraph_backend.Base.{
  ℕ, zero, suc, ◌+◌, ◌≤◌, ◌<◌, String, ◌≡◌, ◌≢◌, refl, false, Option, none, some, [], ◌∷◌, get_or,
  arith, eq_iff, inl, inr, ◌⊎◌,
}
use langgraph_backend.Base.Dict.{lookup, insert, update, lookup-insert, lookup-update}
use langgraph_backend.Base.Int.{pos}
use langgraph_backend.Value.{Value, int, State, get, record_of, dict_or_empty, entries-fields}
use langgraph_backend.GraphRun.{GraphRun}
use langgraph_backend.Mongo.{Collection}
use langgraph_backend.Step.{Step, Outcome, returned, raised}
use langgraph_backend.Guards.{World, Node, no_loop_guard, visits, count_visit, wrap_with_loop_guard}

-- How often the guard lets the step pass.
abbrev pub limit : ℕ → Step → ℕ
limit max_iterations step = get_or step.max_loops max_iterations

visits-insert :
    (id : String) (n : ℕ) (counts r : State)
    → visits id (insert "_visit_counts" (record_of (insert id (int (pos n)) counts)) r) ≡ n
visits-insert id n counts r = ground (
  arith,
  lookup-insert "_visit_counts" "_visit_counts" (record_of (insert id (int (pos n)) counts)) r,
  entries-fields (insert id (int (pos n)) counts),
  lookup-insert id id (int (pos n)) counts,
  eq_iff id id,
)

count_visit_lem :
    (max_iterations : ℕ) (step : Step) (state : State) (out : Outcome) (r : State)
    → count_visit max_iterations step state out ≡ returned r
    → r ≢ []
    → (visits step.id r ≡ visits step.id state + 1)
      × (visits step.id state + 1 ≤ limit max_iterations step)
unfolding count_visit
count_visit_lem m step state (raised e) r h ne = cc
count_visit_lem m step state (returned []) r h ne = absurd (ne (cc))
count_visit_lem m step state (returned (kv ∷ q)) r h ne = ground (
  arith,
  visits-insert step.id (visits step.id state + 1) (dict_or_empty (get "_visit_counts" state))
      (kv ∷ q),
)

visits-update :
    (id : String) (state r : State) → 0 < visits id r → visits id (update state r) ≡ visits id r
unfolding lookup
visits-update id state r h = ground (arith, lookup-update "_visit_counts" state r)

Outcome-cases :
    (out : Outcome)
    → ((e : String) × (out ≡ raised e))
      ⊎ (out ≡ returned [])
      ⊎ ((kv : String × Value) × (r : State) × (out ≡ returned (kv ∷ r)))
Outcome-cases (raised e) = inl (e, refl)
Outcome-cases (returned []) = inr (inl refl)
Outcome-cases (returned (kv ∷ r)) = inr (inr (kv, r, refl))

module _ (mongo : Collection GraphRun) (max_iterations : ℕ) (step : Step) (fn : Node mongo) where
  -- n passes of the guarded node one after the other, each over the state that took up the updates
  -- before it; `none` when a pass raises or is skipped.
  unfoldable pub passes : ℕ → State → World mongo → Option State
  passes zero state w = some state
  passes (suc n) state w =
      let (out, w') = wrap_with_loop_guard mongo max_iterations step fn state w in
      elim out [
        | raised e ↦ none
        | returned [] ↦ none
        | returned (kv ∷ r) ↦ passes n (update state (kv ∷ r)) w'
      ]

  guarded_pass :
      (state : State) (w : World mongo) (r : State)
      → no_loop_guard step.type ≡ false
      → (wrap_with_loop_guard mongo max_iterations step fn state w).0 ≡ returned r
      → r ≢ []
      → (visits step.id r ≡ visits step.id state + 1)
        × (visits step.id state + 1 ≤ limit max_iterations step)
  unfolding wrap_with_loop_guard
  guarded_pass state w r g h ne =
      count_visit_lem max_iterations step state (fn state w).0 r (ground arith) ne

  first_pass :
      (n : ℕ) (state state' : State) (w : World mongo)
      → no_loop_guard step.type ≡ false
      → passes (suc n) state w ≡ some state'
      → (next : State) × (w' : World mongo) × (passes n next w' ≡ some state')
        × (visits step.id next ≡ visits step.id state + 1)
        × (visits step.id state + 1 ≤ limit max_iterations step)
  unfolding passes
  first_pass n state state' w g h =
      let (out, w') = wrap_with_loop_guard mongo max_iterations step fn state w in
      elim (Outcome-cases out) [
        | inl (e, p) ↦ ground arith
        | inr (inl p) ↦ ground arith
        | inr (inr (kv, r, p)) ↦
            let (grown, bounded) = guarded_pass state w (kv ∷ r) g p (λ q. cc) in
            (
              update state (kv ∷ r),
              w',
              ground arith,
              ground (arith, visits-update step.id state (kv ∷ r)),
              bounded,
            )
      ]

  -- A step under the loop guard that passed n times, n at least 1, has its visits counted up by n,
  -- and they do not exceed `max_loops` (the runner's limit where the step gives none).
  pub passes_bounded :
      (n : ℕ) (state state' : State) (w : World mongo)
      → no_loop_guard step.type ≡ false
      → passes (suc n) state w ≡ some state'
      → (visits step.id state' ≡ visits step.id state + suc n)
        × (visits step.id state + suc n ≤ limit max_iterations step)
  unfolding passes
  passes_bounded zero state state' w g h =
      let (next, w', p, grown, bounded) = first_pass zero state state' w g h in ground arith
  passes_bounded (suc n) state state' w g h =
      let (next, w', p, grown, bounded) = first_pass (suc n) state state' w g h in
      omega (arith, passes_bounded n next state' w' g p)
