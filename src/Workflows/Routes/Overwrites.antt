-- ===== src/Workflows/Routes/Overwrites.antt =====
-- A stream writes the whole run behind each node, whatever a route did to it meanwhile.
use langgraph_backend.Base.{
  String, ◌≡◌, refl, sym, Bool, true, false, none, some, ◌==◌, ◌||◌, arith, eq_iff,
}
use langgraph_backend.Value.{Value, State}
use langgraph_backend.GraphRun.{GraphRun, Status}
use langgraph_backend.Mongo.{Collection}
use langgraph_backend.Mongo.Runs.{save, find-save}
use langgraph_backend.Approval.{Container, ok}
use langgraph_backend.Workflows.Stream.{Progress, on_chunk}
use langgraph_backend.Workflows.Routes.{delete_run, terminate_run, terminated, is_active}

abbrev is_marker : String → Bool
is_marker node = node == "__start__" || node == "__end__"

module _ (mongo : Collection GraphRun) where
  open mongo use {Store, find_one}

  -- The stream of a run in memory, over what is stored.
  abbrev pub streaming : GraphRun → State → Store → Progress mongo
  streaming run current stored = record {
    world = record { run = run; stored = stored };
    current_state = current;
  }

  on_chunk_saves :
      (node : String) (output : Value) (s : Progress mongo)
      → is_marker node ≡ false
      → let s' = on_chunk mongo node output s in
        (find_one s.run.id s'.world.stored ≡ some s'.world.run)
        × (s'.world.run.status ≡ s.run.status)
  unfolding on_chunk
  on_chunk_saves node output s h = rw (h, on_chunk) (find-save mongo _ s.stored, refl)

  -- A termination is stored as a failure, but the stream of the run goes on: the next node's output
  -- stores the run again with the status that it has in memory.
  pub terminate_undone :
      (node : String) (output : Value) (run stored : GraphRun) (current : State)
      (c : Container mongo)
      → find_one run.id c.runs ≡ some stored
      → stored.id ≡ run.id
      → is_active stored.status ≡ true
      → is_marker node ≡ false
      → let reply = terminate_run mongo run.id c in
        let s = on_chunk mongo node output (streaming run current reply.container.runs) in
        (reply.response ≡ ok (terminated stored))
        × (find_one run.id reply.container.runs ≡ some (terminated stored))
        × ((terminated stored).status ≡ Status.failed)
        × (find_one run.id s.world.stored ≡ some s.world.run)
        × (s.world.run.status ≡ run.status)
  unfolding terminate_run terminated
  terminate_undone node output run stored current c f e a h =
      rw (f, terminate_run)
        (rw a (
          let runs = save mongo (terminated stored) c.runs in
          let saved = on_chunk_saves node output (streaming run current runs) h in
          (refl, rw (sym e) (find-save mongo (terminated stored) c.runs), refl, saved.0, saved.1)))

  -- A deletion removes the stored run and its live runner, but the stream of the run goes on: the
  -- next node's output stores the run again.
  pub delete_undone :
      (node : String) (output : Value) (run stored : GraphRun) (current : State)
      (c : Container mongo)
      → find_one run.id c.runs ≡ some stored
      → is_marker node ≡ false
      → let reply = delete_run mongo run.id c in
        let s = on_chunk mongo node output (streaming run current reply.container.runs) in
        (reply.response ≡ ok stored)
        × (find_one run.id reply.container.runs ≡ none)
        × (find_one run.id s.world.stored ≡ some s.world.run)
  unfolding delete_run
  delete_undone node output run stored current c f h =
      rw (f, delete_run)
        (let runs = mongo.delete_one run.id c.runs in
          (
            refl,
            ground (arith, mongo.find-delete run.id c.runs run.id, eq_iff run.id run.id),
            (on_chunk_saves node output (streaming run current runs) h).0,
          ))
