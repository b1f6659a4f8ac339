-- ===== src/Stream/Whole/Saved.antt =====
-- Whatever happens in the stream, the stored run is the run in memory when the stream returns.
use langgraph_backend.Base.{
  String, ◌≡◌, refl, Bool, false, Option, none, some, List, [], ◌∷◌, arith, eq_iff, if_intro,
}
use langgraph_backend.Base.Dict.{insert}
use langgraph_backend.Value.{Value, State, flag, get}
use langgraph_backend.GraphRun.{GraphRun, Status}
use langgraph_backend.Mongo.{Collection}
use langgraph_backend.Step.{Step}
use langgraph_backend.Guards.{World, persist}
use langgraph_backend.Stream.{Input, Effect, patch_checkpoint, Session}
use langgraph_backend.Stream.Failure.{on_exception}
use langgraph_backend.Stream.Settle.{
  Snapshot, is_false, record_agent_url, reset_approval, follow_up, settle,
}
use langgraph_backend.Stream.Notices.{
  Outlet, Notice, thread_keys, posted_at, keep_thread, send, notify_pause,
}
use langgraph_backend.Stream.Whole.{End, ended, failed, Graph, finish, stream_graph_to_pause}

module _ (mongo : Collection GraphRun) where
  -- The store has the run as it is in memory.
  abbrev pub IsSaved : World mongo → Type 0
  IsSaved w = mongo.find_one w.run.id w.stored ≡ some w.run

  persist-IsSaved : (run : GraphRun) (w : World mongo) → IsSaved (persist mongo run w)
  persist-IsSaved run w =
      ground (arith, mongo.find-replace run.id run w.stored run.id, eq_iff run.id run.id)

  record_agent_url-IsSaved :
      (url : Option String) (w : World mongo) → IsSaved w → IsSaved (record_agent_url mongo url w)
  unfolding record_agent_url
  record_agent_url-IsSaved none w h = h
  record_agent_url-IsSaved (some url) w h = persist-IsSaved _ w

  reset_approval-IsSaved :
      (key : Option String) (values : State) (w : World mongo)
      → IsSaved w
      → IsSaved (reset_approval mongo key values w).0
  unfolding reset_approval
  reset_approval-IsSaved none values w h = h
  reset_approval-IsSaved (some key) values w h =
      if_intro (λ (r : World mongo × List Effect). IsSaved r.0) (is_false (get key values)) (w, [])
        (
          persist mongo (record w.run { state = insert key (flag false) w.run.state }) w,
          patch_checkpoint ((key, flag false) ∷ []) ∷ [],
        )
        h (persist-IsSaved _ w)

  follow_up-IsSaved :
      (leases : Bool) (steps : List Step) (snap : Snapshot) (next : Option String) (status : Status)
      (w : World mongo)
      → IsSaved w
      → IsSaved (follow_up mongo leases steps snap next status w).0
  unfolding follow_up
  follow_up-IsSaved leases steps snap none status w h = h
  follow_up-IsSaved leases steps snap (some id) Status.waiting_agent w h =
      record_agent_url-IsSaved _ w h
  follow_up-IsSaved leases steps snap (some id) status w h =
      reset_approval-IsSaved _ snap.values w h

  keep_thread-IsSaved :
      (keys : Option (String × String)) (posted : Option (Value × Value)) (w : World mongo)
      → IsSaved w
      → IsSaved (keep_thread mongo keys posted w).0
  unfolding keep_thread
  keep_thread-IsSaved none posted w h = h
  keep_thread-IsSaved (some keys) none w h = h
  keep_thread-IsSaved (some (ts_key, channel_key)) (some (ts, channel)) w h = persist-IsSaved _ w

  pub send-IsSaved :
      (post : Notice → Option Value) (notice : Option Notice) (w : World mongo)
      → IsSaved w
      → IsSaved (send mongo post notice w).0
  unfolding send
  send-IsSaved post none w h = h
  send-IsSaved post (some notice) w h =
      keep_thread-IsSaved (thread_keys notice) (posted_at (post notice)) w h

  keep_thread_keeps :
      (keys : Option (String × String)) (posted : Option (Value × Value)) (w : World mongo)
      → let w' = (keep_thread mongo keys posted w).0 in
        (w'.run.status ≡ w.run.status) × (w'.run.current_step ≡ w.run.current_step)
  unfolding keep_thread
  keep_thread_keeps none posted w = (refl, refl)
  keep_thread_keeps (some keys) none w = (refl, refl)
  keep_thread_keeps (some (ts_key, channel_key)) (some (ts, channel)) w = (refl, refl)

  -- A message changes neither the status of the run nor the step that it shows.
  pub send_keeps :
      (post : Notice → Option Value) (notice : Option Notice) (w : World mongo)
      → let w' = (send mongo post notice w).0 in
        (w'.run.status ≡ w.run.status) × (w'.run.current_step ≡ w.run.current_step)
  unfolding send
  send_keeps post none w = (refl, refl)
  send_keeps post (some notice) w =
      keep_thread_keeps (thread_keys notice) (posted_at (post notice)) w

  settle-IsSaved :
      (leases : Bool) (steps : List Step) (snap : Snapshot) (output : Value) (w : World mongo)
      → IsSaved (settle mongo leases steps snap output w).0
  unfolding settle
  settle-IsSaved leases steps snap output w =
      follow_up-IsSaved leases steps snap _ _ _ (persist-IsSaved _ w)

  finish-IsSaved :
      (outlet : Outlet) (steps : List Step) (end : End) (s : Session mongo)
      → IsSaved (finish mongo outlet steps end s).0
  unfolding finish on_exception notify_pause
  finish-IsSaved outlet steps (ended snap) s =
      send-IsSaved outlet.post _ _
        (settle-IsSaved outlet.leases steps snap s.interrupt_output s.world)
  finish-IsSaved outlet steps (failed message values) s = persist-IsSaved _ s.world

  -- However the stream goes, whether it completes, pauses or fails, and whatever its events: when
  -- `stream_graph_to_pause` returns, the run that is stored is the run in memory.
  pub stream-IsSaved :
      (outlet : Outlet) (steps : List Step) (graph : Graph) (input : Input) (values : State)
      (w : World mongo)
      → IsSaved (stream_graph_to_pause mongo outlet steps graph input values w).0
  unfolding stream_graph_to_pause
  stream-IsSaved outlet steps graph input values w = finish-IsSaved outlet steps _ _
