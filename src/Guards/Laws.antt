-- ===== src/Guards/Laws.antt =====
-- What the wrappers of a node promise.
use langgraph_backend.Base.{
  ◌∙◌, Bool-cases, if_intro, ℕ, ◌≡◌, Bool, true, false, not, none, some, [], ◌∷◌, ◌==◌, ◌&&◌, ◌||◌,
  if◌then◌else◌, arith, String, refl, sym, subst, ap, ◌≢◌, ◌⊎◌, inl, inr, eq_iff,
}
use langgraph_backend.Base.Dict.{lookup, insert, lookup-insert}
use langgraph_backend.Value.{Value, null, text, State, truthy, is_text, get}
use langgraph_backend.GraphRun.{GraphRun, StepStatus}
use langgraph_backend.Mongo.{Collection}
use langgraph_backend.Mongo.Runs.{find-save}
use langgraph_backend.Step.{Step, StepType, Outcome, returned, raised}
use langgraph_backend.Guards.{
  World, Node, no_fail_guard, no_loop_guard, count_visit, clear_sentinel, make_node, mark_running,
  persist,
}

-- Another step's failure stands in the state.
abbrev pub is_blocked : Step → State → Bool
is_blocked step state =
    not (no_fail_guard step.type)
    && truthy (get "__failed_step__" state)
    && not (is_text step.id (get "__failed_step__" state))

-- The step's own `when` lets it run.
abbrev pub is_enabled : Step → State → Bool
is_enabled step state = elim step.when [
  | none ↦ true
  | some key ↦ key == "" || truthy (get key state)
]

-- The guards write these two keys of an update.
abbrev pub is_guard_key : String → Bool
is_guard_key k = k == "_visit_counts" || k == "__failed_step__"

-- What a node makes of what its body did: an exception is passed on; an update may end in the
-- exception of a guard, or is passed on with every key but those of the guards as it was.
pub data IsPassedOn : Outcome → Outcome → Type 0 where
  raises : (e : String) → IsPassedOn (raised e) (raised e)
  stops : (update : State) (e : String) → IsPassedOn (returned update) (raised e)
  answers :
      (update result : State)
      → ((k : String)
          → lookup k result ≡ (if is_guard_key k then lookup k result else lookup k update))
      → IsPassedOn (returned update) (returned result)

same-IsPassedOn : (out : Outcome) → IsPassedOn out out
same-IsPassedOn (raised e) = raises e
same-IsPassedOn (returned update) = answers update update (λ k. ground arith)

other_key : (key k : String) → is_guard_key key ≡ true → is_guard_key k ≡ false → (key == k) ≡ false
other_key key k own e = elim (Bool-cases (key == k)) [
  | inr different ↦ different
  | inl same ↦ absurd (ground (arith, sym own ∙ ap is_guard_key ((eq_iff key k).0 same) ∙ e))
]

-- A write of a guard's key to an update.
insert-keeps :
    (key : String) (v : Value) (update result : State) (k : String)
    → is_guard_key key ≡ true
    → lookup k result ≡ (if is_guard_key k then lookup k result else lookup k update)
    → lookup k (insert key v result)
      ≡ (if is_guard_key k then lookup k (insert key v result) else lookup k update)
insert-keeps key v update result k own kept = elim (Bool-cases (is_guard_key k)) [
  | inl e ↦ rw e refl
  | inr e ↦ rw e (
      rw (lookup-insert key k v result) (
        rw (other_key key k own e)
          (kept ∙ ap (λ b. if b then lookup k result else lookup k update) e)))
]

count_visit-IsPassedOn :
    (max_iterations : ℕ) (step : Step) (state : State) (out : Outcome)
    → IsPassedOn out (count_visit max_iterations step state out)
unfolding count_visit
count_visit-IsPassedOn max_iterations step state (raised e) = raises e
count_visit-IsPassedOn max_iterations step state (returned []) = answers [] [] (λ k. ground arith)
count_visit-IsPassedOn max_iterations step state (returned (kv ∷ update)) =
    if_intro (IsPassedOn (returned (kv ∷ update))) _ _ _ (stops (kv ∷ update) "exceeded max_loops")
      (answers (kv ∷ update) _
        (λ k. insert-keeps "_visit_counts" _ (kv ∷ update) (kv ∷ update) k refl (ground arith)))

clear_sentinel-IsPassedOn :
    (failed : Value) (out counted : Outcome)
    → IsPassedOn out counted
    → IsPassedOn out (clear_sentinel failed counted)
unfolding clear_sentinel
clear_sentinel-IsPassedOn failed _ _ (raises e) = raises e
clear_sentinel-IsPassedOn failed _ _ (stops update e) = stops update e
clear_sentinel-IsPassedOn failed _ _ (answers update result kept) =
    if_intro (IsPassedOn (returned update)) _ _ _
      (answers update (insert "__failed_step__" null result)
        (λ k. insert-keeps "__failed_step__" null update result k refl (kept k)))
      (answers update result kept)

guarded-IsPassedOn :
    (max_iterations : ℕ) (step : Step) (state : State) (out : Outcome)
    → let counted =
        if no_loop_guard step.type then out else count_visit max_iterations step state out in
      IsPassedOn out (
        if no_fail_guard step.type
        then counted
        else clear_sentinel (get "__failed_step__" state) counted)
guarded-IsPassedOn max_iterations step state out =
    let counted =
      if_intro (IsPassedOn out) (no_loop_guard step.type) _ _ (same-IsPassedOn out)
        (count_visit-IsPassedOn max_iterations step state out) in
    if_intro (IsPassedOn out) (no_fail_guard step.type) _ _ counted
      (clear_sentinel-IsPassedOn (get "__failed_step__" state) out _ counted)

fail_guarded : (t : StepType) → t ≢ StepType.join → no_fail_guard t ≡ false
fail_guarded t h = ground arith

unblocked :
    (step : Step) (state : State)
    → (step.type ≡ StepType.join)
      ⊎ (truthy (get "__failed_step__" state) ≡ false)
      ⊎ (get "__failed_step__" state ≡ text step.id)
    → is_blocked step state ≡ false
unblocked step state (inl t) = ground arith
unblocked step state (inr (inl f)) = ground arith
unblocked step state (inr (inr f)) = ground (arith, eq_iff step.id step.id)

module _ (mongo : Collection GraphRun) (step : Step) where
  -- The world in which a body runs: the step is shown as running and is the current step, every
  -- other status is kept, and the store has the run.
  abbrev pub IsStarted : World mongo → World mongo → Type 0
  IsStarted w started =
      ((j : String)
        → lookup j started.run.step_statuses
          ≡ (if step.id == j then some StepStatus.running else lookup j w.run.step_statuses))
      × (started.run.current_step ≡ some step.id)
      × (started.run.status ≡ w.run.status)
      × (mongo.find_one w.run.id started.stored ≡ some started.run)

module _ (mongo : Collection GraphRun) (max_iterations : ℕ) (step : Step) (fn : Node mongo) where
  -- Fail-fast: while the state carries the failure of another step, a step of any type but a join
  -- raises; its body does not run, and neither the run nor the store changes.
  pub make_node_blocked :
      (state : State) (w : World mongo) (other : String)
      → get "__failed_step__" state ≡ text other
      → (other == "") ≡ false
      → (other == step.id) ≡ false
      → step.type ≢ StepType.join
      → (e : String) × (make_node mongo max_iterations step fn state w ≡ (raised e, w))
  unfolding make_node
  make_node_blocked state w other f known foreign t = (
    "aborted: an upstream step already failed",
    ground (arith, f, known, foreign, fail_guarded step.type t),
  )

  -- A step whose `when` is falsy changes neither the run nor the store, and returns an empty
  -- update, or, at the restart of the step that failed itself, one that clears the failure.
  pub make_node_skipped :
      (state : State) (w : World mongo)
      → is_blocked step state ≡ false
      → is_enabled step state ≡ false
      → make_node mongo max_iterations step fn state w ≡ (
        returned (
            if not (no_fail_guard step.type) && truthy (get "__failed_step__" state)
            then ("__failed_step__", null) ∷ []
            else []),
        w,
      )
  unfolding make_node insert lookup
  make_node_skipped state w b e = ground arith

  run_equation :
      (state : State) (w : World mongo)
      → is_blocked step state ≡ false
      → is_enabled step state ≡ true
      → make_node mongo max_iterations step fn state w ≡ (
          let (out, w') = fn state (persist mongo (mark_running step.id state w.run) w) in
          let counted =
            if no_loop_guard step.type then out else count_visit max_iterations step state out in
          (
            if no_fail_guard step.type
                then counted
                else clear_sentinel (get "__failed_step__" state) counted,
            w',
          ))
  unfolding make_node
  run_equation state w b e = ground arith

  -- A step that is a join, or whose state carries no failure but its own, and whose `when` lets it
  -- run, runs its body in a world that shows it as running and has that stored. What the body leaves
  -- is what the node leaves; what the body raises the node raises, and an update that the body returns
  -- the node returns, but for the two keys that its guards write, or a guard raises.
  pub make_node_runs :
      (state : State) (w : World mongo)
      → (step.type ≡ StepType.join)
        ⊎ (truthy (get "__failed_step__" state) ≡ false)
        ⊎ (get "__failed_step__" state ≡ text step.id)
      → is_enabled step state ≡ true
      → (started : World mongo) × IsStarted mongo step w started
        × ((make_node mongo max_iterations step fn state w).1 ≡ (fn state started).1)
        × IsPassedOn (fn state started).0 (make_node mongo max_iterations step fn state w).0
  unfolding mark_running
  make_node_runs state w free enabled =
      let started = persist mongo (mark_running step.id state w.run) w in
      let runs = run_equation state w (unblocked step state free) enabled in
      (
        started,
        (
          λ j. lookup-insert step.id j StepStatus.running w.run.step_statuses,
          refl,
          refl,
          find-save mongo (mark_running step.id state w.run) w.stored,
        ),
        ap (λ r. r.1) runs,
        subst (IsPassedOn (fn state started).0) (sym (ap (λ r. r.0) runs))
            (guarded-IsPassedOn max_iterations step state (fn state started).0),
      )
