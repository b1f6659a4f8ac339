-- ===== src/Examples/Notices.antt =====
-- The questions of a waiting run, which Slack takes.
use langgraph_backend.Base.{◌≡◌, refl, true, Option, some, List, [], ◌∷◌}
use langgraph_backend.Base.Dict.{lookup, insert}
use langgraph_backend.Value.{Value, text, flag, array, items, State, record_of}
use langgraph_backend.GraphRun.{GraphRun}
use langgraph_backend.Mongo.Runs.{asks_in_thread}
use langgraph_backend.Stream.Settle.{Snapshot}
use langgraph_backend.Stream.Notices.{notify_pause, notify_pause_lem}
use langgraph_backend.Stream.Notices.Choice.{
  SlackSettings, Notice, notice_of, snapshot_asked, question_notice, posted_at,
}
use langgraph_backend.Examples.{db, waiting_run, world_of, draft_state}

abbrev settings : SlackSettings
settings = record { bot_token = "xoxb"; approvals_channel = "C1" }

abbrev asking : State
asking = ("id", text "review") ∷ ("type", text "ask_context") ∷ []

abbrev question : List Value
question = text "Which branch?" ∷ []

abbrev snap : Snapshot
snap = record {
  values = draft_state;
  next = "review" ∷ [];
  tasks = [];
  interrupts =
      record_of (("type", text "ask_context") ∷ ("questions", array (items question)) ∷ []) ∷ [];
}

abbrev post : Notice → Option Value
post notice =
    some (record_of (("ok", flag true) ∷ ("ts", text "17.2") ∷ ("channel", text "C1") ∷ []))

abbrev asked_run : GraphRun
asked_run = record waiting_run {
  state =
      insert "_slack_ask_context_channel" (text "C1")
        (insert "_slack_ask_context_ts" (text "17.2") waiting_run.state);
}

notify_pause_lem_example :
    let d =
      (notify_pause db settings "http://app"
        (λ id. some asking)
        post
        snap
        (world_of waiting_run)).0 in
    (db.find_one "run-1" d.stored ≡ some asked_run) × (asks_in_thread "17.2" asked_run ≡ true)
unfolding notice_of snapshot_asked question_notice posted_at lookup
notify_pause_lem_example =
    notify_pause_lem db settings "http://app" (λ id. some asking) post snap (world_of waiting_run)
      "review" asking "xoxb" "C1" "17.2" question (text "C1") refl refl refl refl refl refl
