-- ===== src/Agent/Signals.antt =====
-- What the messages of an agent do to the run's state.
use Prim.Native.String
use package.text.Mathlib.TextEquality.{starts_with_iff}
use package.text.Mathlib.TextPositions.{starts_with_of_prefix}
use package.text.Mathlib.TextLemmas.{append_assoc}
use langgraph_backend.Base.{
  String, ◌≡◌, refl, sym, ap, ◌∙◌, Bool, true, false, Option, none, some, List, [], ◌∷◌, ◌++◌, ◌==◌,
  if◌then◌else◌, ◌>>=◌, starts_with, arith, Bool-cases, inl, inr,
}
use langgraph_backend.Base.Dict.{lookup, insert, lookup-insert, lookup-inserted}
use langgraph_backend.Texts.{◌<>◌}
use langgraph_backend.Value.{Value, text, array, items, elements, State, truthy, get}
use langgraph_backend.GraphRun.{GraphRun}
use langgraph_backend.Mongo.{Collection}
use langgraph_backend.Mongo.Runs.{find-save}
use langgraph_backend.Approval.{ok}
use langgraph_backend.Agent.Progress.{
  progress_stored, step_key, listed, is_in, remove_first, track, untrack, token_update, tracked,
  untracked, cleared_tracking, control, append_progress, report, agent_progress,
}

behind-plain :
    (rest message : String)
    → starts_with message "__" ≡ false
    → starts_with message (String.◌++◌ "__" rest) ≡ false
behind-plain rest message h = elim (Bool-cases (starts_with message (String.◌++◌ "__" rest))) [
  | inr lacks ↦ lacks
  | inl has ↦
      let (u, e) = (starts_with_iff message (String.◌++◌ "__" rest)).0 has in
      cc (
        h,
        starts_with_of_prefix "__" message (String.◌++◌ rest u, sym (append_assoc "__" rest u) ∙ e),
      )
]

elements-items : (vs : List Value) → elements (items vs) ≡ vs
elements-items [] = refl
elements-items (v ∷ vs) = ap (λ (t : List Value). v ∷ t) (elements-items vs)

module _ (parse : String → Option Value) (equal : Value → Value → Bool) where
  control_plain :
      (step message : String) (state : State)
      → starts_with message "__" ≡ false
      → control parse equal step message state ≡ none
  unfolding control token_update tracked untracked cleared_tracking
  control_plain step message state h = rw (behind-plain "token__:" message h) (
      rw (behind-plain "mcp_start__:" message h) (
        rw (behind-plain "mcp_end__:" message h) (
          rw (behind-plain "tool_start__:" message h) (
            rw (behind-plain "tool_end__:" message h)
              (rw (behind-plain "mcp_clear__:" message h) refl)))))

  remove_first-append :
      (v : Value) (vs : List Value)
      → equal v v ≡ true
      → is_in parse equal v vs ≡ false
      → remove_first parse equal v (vs ++ v ∷ []) ≡ vs
  unfolding remove_first
  remove_first-append v [] r h = rw r refl
  remove_first-append v (w ∷ vs) r h = ground (arith, remove_first-append v vs)

  is_in-append :
      (v : Value) (vs : List Value) → equal v v ≡ true → is_in parse equal v (vs ++ v ∷ []) ≡ true
  is_in-append v [] r = rw r refl
  is_in-append v (w ∷ vs) r = ground (arith, is_in-append v vs)

  listed-insert :
      (key : String) (vs : List Value) (state : State)
      → listed (lookup key (insert key (array (items vs)) state)) ≡ some vs
  listed-insert key vs state =
      ap listed (lookup-inserted key (array (items vs)) state) ∙ ap some (elements-items vs)

  -- The end of a server's or a tool's call takes away what its start added: the list of the active
  -- ones is as it was, where the one that starts is named, equals itself and is not in the list
  -- yet.
  pub untrack-track :
      (key name : String) (d state : State) (active : List Value)
      → listed (lookup key state) ≡ some active
      → truthy (get name d) ≡ true
      → equal (get name d) (get name d) ≡ true
      → is_in parse equal (get name d) active ≡ false
      → ((track parse equal key name d state >>= untrack parse equal key name d) >>= λ s.
          listed (lookup key s))
        ≡ some active
  unfolding track untrack
  untrack-track key name d state active l t r n =
      let v = get name d in
      rw (l, t)
        (rw (listed-insert key (active ++ v ∷ []) state) (
          rw (is_in-append v active r)
            (listed-insert key _ _ ∙ ap some (remove_first-append v active r n))))

  module _ (mongo : Collection GraphRun) where
    -- A message that is no control signal is answered as stored, and the stored run then has it
    -- behind the earlier messages of the step, with every other entry of its state as before.
    pub agent_progress_appends :
        (run_id message j : String) (run : GraphRun) (old : List Value) (s : mongo.Store)
        → mongo.find_one run_id s ≡ some run
        → starts_with message "__" ≡ false
        → let key = "_agent_progress_" <> step_key run.current_step in
          listed (lookup key run.state) ≡ some old
          → let (response, s') = agent_progress parse equal mongo run_id message s in
            let state = append_progress parse equal (step_key run.current_step) message run.state in
            (response ≡ ok progress_stored)
            × (mongo.find_one run.id s' ≡ some (record run { state = state }))
            × (lookup j state ≡ (
                if key == j
                then some (array (items (old ++ text message ∷ [])))
                else lookup j run.state))
    unfolding agent_progress report append_progress
    agent_progress_appends run_id message j run old s f h l =
        let step = step_key run.current_step in
        rw (f, agent_progress)
          (rw (control_plain step message run.state h, report)
            (rw h (
              refl,
              find-save mongo
                  (record run { state = append_progress parse equal step message run.state }) s,
              rw l (lookup-insert ("_agent_progress_" <> step) j _ run.state),
            )))
