-- ===== src/Stream/Notices.antt =====
-- The end of `stream_graph_to_pause` of app/infrastructure/orchestration/yaml_graph.py and of
-- `_stream_graph` of app/api/routes/workflows.py: what is sent to Slack, or to the webhook of the
-- step, when a run waits for a person. The step is its raw dict, with texts for its options; the
-- questions of an interrupt are a list of texts, or missing.
pub mod Choice
pub use langgraph_backend.Stream.Notices.Choice.{
  SlackSettings, Notice, Outlet, silent, option_text, option_or, last_asked, task_asked,
  snapshot_asked, uses_slack, template_state, question_notice, approval_notice, notice_of,
  thread_keys, posted_at, is_agent_type, graph_question, graph_notice_of, due_notice, addon_message,
  thread_message, root_message, approval_message,
}
use langgraph_backend.Base.{
  String, ◌≡◌, true, false, not, Option, none, some, List, [], ◌∷◌, ◌==◌, arith, eq_iff,
}
use langgraph_backend.Base.Dict.{insert, lookup-insert}
use langgraph_backend.Value.{Value, text, State}
use langgraph_backend.GraphRun.{GraphRun, is_waiting_approval}
use langgraph_backend.Mongo.{Collection}
use langgraph_backend.Mongo.Runs.{asks_in_thread, find-save}
use langgraph_backend.Step.{Step}
use langgraph_backend.Guards.{World, persist}
use langgraph_backend.Stream.{Effect, patch_checkpoint}
use langgraph_backend.Stream.Settle.{Snapshot}

module _ (mongo : Collection GraphRun) where
  -- The thread is written to the checkpoint and to the stored run.
  unfoldable pub keep_thread :
      Option (String × String) → Option (Value × Value) → World mongo → World mongo × List Effect
  keep_thread (some (ts_key, channel_key)) (some (ts, channel)) w = (
    persist mongo
        (record w.run { state = insert channel_key channel (insert ts_key ts w.run.state) }) w,
    patch_checkpoint ((ts_key, ts) ∷ (channel_key, channel) ∷ []) ∷ [],
  )
  keep_thread _ _ w = (w, [])

  -- Slack's or the webhook's answer is given, `none` where the message was not sent.
  unfoldable pub send :
      (Notice → Option Value) → Option Notice → World mongo → World mongo × List Effect
  unfolding keep_thread posted_at
  send post none w = (w, [])
  send post (some notice) w = keep_thread (thread_keys notice) (posted_at (post notice)) w

  -- What is sent when a stream has ended. The raw step of an id is given.
  unfoldable pub notify_pause :
      SlackSettings
      → String
      → (String → Option State)
      → (Notice → Option Value)
      → Snapshot
      → World mongo
      → World mongo × List Effect
  unfolding due_notice send notice_of
  notify_pause settings base_url step_of post snap w =
      send post (due_notice base_url step_of (notice_of settings) snap w.run) w

  -- The same for the streams of the workflow routes.
  unfoldable pub notify_graph_pause :
      Outlet → List Step → Snapshot → World mongo → World mongo × List Effect
  unfolding due_notice send graph_notice_of
  notify_graph_pause outlet steps snap w =
      send outlet.post
        (due_notice outlet.base_url (outlet.raw_step steps) (graph_notice_of outlet.settings) snap
          w.run)
        w

  abbrev in_thread : Value → Value → GraphRun → GraphRun
  in_thread ts channel run = record run {
    state =
        insert "_slack_ask_context_channel" channel (insert "_slack_ask_context_ts" ts run.state);
  }

  asks-in_thread :
      (ts : String) (channel : Value) (run : GraphRun)
      → is_waiting_approval run.status ≡ true
      → asks_in_thread ts (in_thread (text ts) channel run) ≡ true
  asks-in_thread ts channel run h = ground (
    arith,
    lookup-insert "_slack_ask_context_channel" "_slack_ask_context_ts" channel
        (insert "_slack_ask_context_ts" (text ts) run.state),
    lookup-insert "_slack_ask_context_ts" "_slack_ask_context_ts" (text ts) run.state,
    eq_iff ts ts,
  )

  notify_pause-send :
      (settings : SlackSettings) (base_url : String) (step_of : String → Option State)
      (post : Notice → Option Value) (snap : Snapshot) (w : World mongo) (id : String)
      (step : State)
      → is_waiting_approval w.run.status ≡ true
      → (base_url == "") ≡ false
      → w.run.current_step ≡ some id
      → step_of id ≡ some step
      → notify_pause settings base_url step_of post snap w
        ≡ send post (notice_of settings step snap) w
  unfolding notify_pause due_notice
  notify_pause-send settings base_url step_of post snap w id step waiting base current found =
      ground (arith, waiting, base, current, found)

  -- The thread of the first questions of a run that waits at a known step leads back to it, where the
  -- base URL is set: when Slack answers that the message was posted at a time stamp in a channel, the
  -- stored run is one that a reply in the thread with this time stamp looks for.
  pub notify_pause_lem :
      (settings : SlackSettings) (base_url : String) (step_of : String → Option State)
      (post : Notice → Option Value) (snap : Snapshot) (w : World mongo) (id : String)
      (step : State) (token channel ts : String) (questions : List Value) (at_channel : Value)
      → is_waiting_approval w.run.status ≡ true
      → (base_url == "") ≡ false
      → w.run.current_step ≡ some id
      → step_of id ≡ some step
      → notice_of settings step snap ≡ some (root_message token channel questions snap.values)
      → posted_at (post (root_message token channel questions snap.values))
        ≡ some (text ts, at_channel)
      → let run' = in_thread (text ts) at_channel w.run in
        let d = (notify_pause settings base_url step_of post snap w).0 in
        (mongo.find_one w.run.id d.stored ≡ some run') × (asks_in_thread ts run' ≡ true)
  unfolding send keep_thread
  notify_pause_lem settings base_url step_of post snap w id step token channel ts questions
        at_channel waiting base current found notice posted =
      rw
        (notify_pause-send settings base_url step_of post snap w id step waiting base current found)
        (rw (notice, send)
          (rw (posted, keep_thread)
            (
              find-save mongo (in_thread (text ts) at_channel w.run) w.stored,
              asks-in_thread ts at_channel w.run waiting,
            )))
