-- ===== src/Executor/Poll/Ends.antt =====
-- The poll loop ends: it survives fewer lost attempts than the limit.
use langgraph_backend.Base.{
  ℕ, suc, ◌+◌, ◌≤◌, ◌<◌, Option-cases, Bool-cases, inl, inr, if_intro, eq_iff, subst, String, ◌≡◌,
  refl, Bool, true, false, List, [], ◌∷◌, ◌==◌, if◌then◌else◌, leb, arith,
}
use langgraph_backend.Value.{Value, State}
use langgraph_backend.GraphRun.{GraphRun}
use langgraph_backend.Mongo.{Collection}
use langgraph_backend.Executor.Poll.{
  progress_messages, recovery_outputs, loop_field, Poll, unreachable, answered, Polling, Polled,
  waiting, done, failed, forward_progress, take_outputs, on_lost, on_idle, on_status,
  on_unreachable, on_poll, poll_loop,
}

-- A poll that fails, or finds the agent without the task.
abbrev pub is_loss : Poll → Bool
is_loss unreachable = true
is_loss (answered status outputs) = status == "idle"

unfoldable pub losses : List Poll → ℕ
losses [] = 0
losses (x ∷ xs) = let rest = losses xs in if is_loss x then suc rest else rest

module _ {runs : Collection GraphRun} {tasks : Collection State} where
  abbrev pub is_waiting : Polled runs tasks → Bool
  is_waiting (waiting p) = true
  is_waiting _ = false

module _ (runs : Collection GraphRun) (tasks : Collection State) (recovered : List Value → Bool)
    (max_loops : ℕ) (task_key run_id step_id : String) where
  -- The count of lost attempts, where the loop goes on.
  abbrev Counts : (ℕ → Type 0) → Polled runs tasks → Type 0
  Counts P (waiting p) = P p.loop_count
  Counts P _ = Unit

  forward_progress-count :
      (messages : List Value) (p : Polling runs tasks)
      → (forward_progress runs tasks run_id step_id messages p).loop_count ≡ p.loop_count
  unfolding forward_progress
  forward_progress-count [] p = refl
  forward_progress-count (m ∷ messages) p =
      elim (Option-cases (runs.find_one run_id p.stored_runs)) [
        | inl e ↦ rw (e, forward_progress) refl
        | inr (run, e) ↦ rw (e, forward_progress) refl
      ]

  take_outputs-count :
      (outputs : List Value) (p : Polling runs tasks)
      → (take_outputs runs tasks task_key run_id step_id outputs p).loop_count ≡ p.loop_count
  unfolding take_outputs
  take_outputs-count outputs p = forward_progress-count (progress_messages outputs) _

  abbrev Next : ℕ → ℕ → Type 0
  Next n m = (m ≡ n + 1) × (m < max_loops)

  on_lost-Counts :
      (message : String) (fields : ℕ → State) (p : Polling runs tasks)
      → Counts (Next p.loop_count) (on_lost runs tasks max_loops task_key message fields p)
  unfolding on_lost
  on_lost-Counts message fields p = elim (Bool-cases (leb max_loops (p.loop_count + 1))) [
    | inl e ↦ rw (e, on_lost) tt
    | inr e ↦ rw (e, on_lost) (refl, ground arith)
  ]

  on_idle-Counts :
      (outputs : List Value) (p : Polling runs tasks)
      → Counts (Next p.loop_count) (on_idle runs tasks recovered max_loops task_key outputs p)
  unfolding on_idle
  on_idle-Counts outputs p =
      if_intro (Counts (Next p.loop_count))
        (recovered (recovery_outputs runs tasks task_key outputs p)) _ _ tt
        (on_lost-Counts "agent idle" (loop_field runs tasks) p)

  on_unreachable-Counts :
      (p : Polling runs tasks)
      → Counts (Next p.loop_count) (on_unreachable runs tasks max_loops task_key p)
  unfolding on_unreachable
  on_unreachable-Counts p = elim (Bool-cases (leb max_loops (p.loop_count + 1))) [
    | inl e ↦ rw (e, on_unreachable) tt
    | inr e ↦ rw (e, on_unreachable) (refl, ground arith)
  ]

  loss-Counts :
      (x : Poll) (p : Polling runs tasks)
      → is_loss x ≡ true
      → Counts
          (Next p.loop_count)
          (on_poll runs tasks recovered max_loops task_key run_id step_id x p)
  unfolding on_poll on_status
  loss-Counts unreachable p h = on_unreachable-Counts p
  loss-Counts (answered status outputs) p h = rw ((eq_iff status "idle").0 h) (
      subst
        (λ n. Counts (Next n) (
          on_idle runs tasks recovered max_loops task_key outputs
            (take_outputs runs tasks task_key run_id step_id outputs p)))
        (take_outputs-count outputs p)
        (on_idle-Counts outputs (take_outputs runs tasks task_key run_id step_id outputs p)))

  other-Counts :
      (x : Poll) (p : Polling runs tasks)
      → is_loss x ≡ false
      → Counts
          (λ m. m ≡ p.loop_count)
          (on_poll runs tasks recovered max_loops task_key run_id step_id x p)
  unfolding on_poll on_status
  other-Counts unreachable p h = ground arith
  other-Counts (answered status outputs) p h =
      let same : ℕ → Type 0 = λ m. m ≡ p.loop_count in
      if_intro (Counts same) (status == "finished") _ _ tt
        (if_intro (Counts same) (status == "failed") _ _ tt (rw h (take_outputs-count outputs p)))

  -- The loop behind one poll, by what the poll came to.
  abbrev Ends : Polled runs tasks → Type 0
  Ends r = is_waiting r ≡ false

  after_poll :
      (P : ℕ → Type 0) (r : Polled runs tasks) (xs : List Poll)
      → Counts P r
      → ((p : Polling runs tasks)
          → P p.loop_count
          → Ends (poll_loop runs tasks recovered max_loops task_key run_id step_id xs p))
      → Ends (elim r [
        | waiting p ↦ poll_loop runs tasks recovered max_loops task_key run_id step_id xs p
        | done p ↦ done p
        | failed e p ↦ failed e p
      ])
  after_poll P (waiting p) xs c ih = ih p c
  after_poll P (done p) xs c ih = refl
  after_poll P (failed e p) xs c ih = refl

  -- The loop ends, with a result or an exception, when the polls that fail or find the agent without
  -- its task, with those counted before, are as many as the limit and at least one, whatever the
  -- agent answers between them.
  pub poll_loop_ends :
      (xs : List Poll) (p : Polling runs tasks)
      → max_loops ≤ p.loop_count + losses xs
      → 0 < losses xs
      → is_waiting (poll_loop runs tasks recovered max_loops task_key run_id step_id xs p) ≡ false
  unfolding poll_loop losses
  poll_loop_ends [] p h l = absurd (omega (arith, l))
  poll_loop_ends (x ∷ xs) p h l = elim (Bool-cases (is_loss x)) [
    | inl e ↦
        after_poll (Next p.loop_count) _ xs (loss-Counts x p e)
          (λ p' c. poll_loop_ends xs p' (ground arith) (ground arith))
    | inr e ↦
        after_poll (λ m. m ≡ p.loop_count) _ xs (other-Counts x p e)
          (λ p' c. poll_loop_ends xs p' (ground arith) (ground arith))
  ]
