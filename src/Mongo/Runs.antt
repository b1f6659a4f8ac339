-- ===== src/Mongo/Runs.antt =====
-- `MongoGraphRunRepository` of app/infrastructure/persistence/mongo.py. A document is the run itself:
-- `_to_doc` and `_from_doc` only rename `id` to `_id` and back.
use langgraph_backend.Base.{
  String, ◌≡◌, Bool, true, false, not, Option, none, some, List, [], ◌∷◌, ◌==◌, ◌&&◌, if◌then◌else◌,
  any, ℕ, zero, suc, take, drop, length, arith, eq_iff,
}
use langgraph_backend.Value.{is_text, get}
use langgraph_backend.Mongo.{Collection}
use langgraph_backend.GraphRun.{GraphRun, Status, is_waiting_approval, is_incomplete}

-- status == "…"
abbrev pub same_status : Status → Status → Bool
same_status Status.running Status.running = true
same_status Status.waiting_approval Status.waiting_approval = true
same_status Status.waiting_agent Status.waiting_agent = true
same_status Status.completed Status.completed = true
same_status Status.failed Status.failed = true
same_status Status.cancelled Status.cancelled = true
same_status Status.rejected Status.rejected = true
same_status _ _ = false

abbrev in_list : String → List String → Bool
in_list s = any (λ t. t == s)

-- `if x` for an optional text, which is false at "" too
abbrev given : Option String → Bool
given none = false
given (some s) = not (s == "")

abbrev non_empty : List String → Bool
non_empty [] = false
non_empty _ = true

abbrev pub is_workflow : Option String → GraphRun → Bool
is_workflow none run = true
is_workflow (some w) run = run.graph_id == w

-- query["status"] = status, where a status is given
abbrev pub is_status : Option Status → GraphRun → Bool
is_status none run = true
is_status (some s) run = same_status run.status s

-- `_build_run_query` without `search`, as the test that the query makes of a document.
unfoldable pub build_run_query : Option String → Option Status → List String → GraphRun → Bool
build_run_query workflow_id status exclude run =
    (if given workflow_id && not (non_empty exclude)
      then is_workflow workflow_id run
      else if non_empty exclude && not (given workflow_id)
      then not (in_list run.graph_id exclude)
      else if given workflow_id && non_empty exclude
      then is_workflow workflow_id run && not (in_list run.graph_id exclude)
      else true)
    && is_status status run

-- The document that `find_one(filter)` returns.
abbrev pub first {ℓ} : {A : Type ℓ} → List A → Option A
first [] = none
first (x ∷ xs) = some x

abbrev pub set_running : GraphRun → GraphRun
set_running run = record run { status = Status.running }

-- cursor.limit(n)
abbrev pub limited {ℓ} : {A : Type ℓ} → ℕ → List A → List A
limited zero xs = xs
limited (suc n) xs = take (suc n) xs

-- {"status": "waiting_approval", "state._slack_ask_context_ts": thread_ts}
abbrev pub asks_in_thread : String → GraphRun → Bool
asks_in_thread thread_ts run =
    is_waiting_approval run.status && is_text thread_ts (get "_slack_ask_context_ts" run.state)

module _ (mongo : Collection GraphRun) where
  open mongo use {Store, find_one, insert_one, replace_one, delete_one, find_one_and_update, find}

  abbrev pub create : GraphRun → Store → Option Store
  create run = insert_one run.id run

  abbrev pub save : GraphRun → Store → Store
  save run = replace_one run.id run

  abbrev pub get_run : String → Store → Option GraphRun
  get_run run_id = find_one run_id

  unfoldable pub claim_for_resume : String → Store → Option GraphRun × Store
  claim_for_resume run_id =
      find_one_and_update run_id (λ run. is_waiting_approval run.status) set_running

  unfoldable pub find_by_ask_context_ts : String → Store → Option GraphRun
  find_by_ask_context_ts thread_ts s = first (find (asks_in_thread thread_ts) s)

  unfoldable pub list_incomplete : Store → List GraphRun
  list_incomplete = find (λ run. is_incomplete run.status)

  unfoldable pub delete_run : String → Store → Store
  delete_run run_id = delete_one run_id

  -- `list_recent` up to its sort by `created_at`: skip(offset).limit(limit), where limit 0 is none.
  unfoldable pub list_recent :
      (List GraphRun → List GraphRun)
      → ℕ
      → ℕ
      → Option String
      → Option Status
      → List String
      → Store
      → List GraphRun
  list_recent sort limit offset workflow_id status exclude s =
      limited limit (drop offset (sort (find (build_run_query workflow_id status exclude) s)))

  unfoldable pub count_recent : Option String → Option Status → List String → Store → ℕ
  count_recent workflow_id status exclude s =
      length (find (build_run_query workflow_id status exclude) s)

  pub find-save : (run : GraphRun) (s : Store) → find_one run.id (save run s) ≡ some run
  find-save run s = ground (arith, mongo.find-replace run.id run s run.id, eq_iff run.id run.id)
