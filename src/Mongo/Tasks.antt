-- ===== src/Mongo/Tasks.antt =====
-- `MongoAgentTaskRepository` of app/infrastructure/persistence/mongo.py: the tasks of agents, as raw
-- documents. `update_one` without upsert is the driver's `find_one_and_update` whose result is not
-- read; with upsert it replaces or inserts the document, in one step. `updated_at` is left out.
use langgraph_backend.Base.{
  String, ◌≡◌, refl, Bool, true, not, Option, none, some, List, [], ◌∷◌, ◌++◌, ◌==◌, ◌&&◌, ◌||◌,
  if◌then◌else◌, or_else, keep, any, arith, eq_iff,
}
use langgraph_backend.Base.Dict.{lookup, insert, update, set_default, lookup-update, lookup-keep}
use langgraph_backend.Base.Int.{pos}
use langgraph_backend.Value.{Value, int, array, items, State, is_text, get, list_or_empty}
use langgraph_backend.Mongo.{Collection}

-- The keys that are set only when the document is new.
abbrev pub is_insert_only : String → Bool
is_insert_only key =
    any (λ k. k == key)
      ("run_id" ∷ "step_id" ∷ "agent_id" ∷ "created_at" ∷ "max_loops" ∷ "outputs" ∷ "loop_count"
        ∷ [])

abbrev pub set_on_insert : String × Value → Bool
set_on_insert (k, v) = not (k == "_id") && is_insert_only k

abbrev pub set_always : String × Value → Bool
set_always (k, v) = not (k == "_id") && not (is_insert_only k)

abbrev pub inserted_fields : State → State
inserted_fields task =
    set_default "loop_count" (int (pos 0))
      (set_default "outputs" (array (items [])) (keep set_on_insert task))

-- The document that an upsert leaves, from the one that it finds.
unfoldable pub upserted : State → Option State → State
upserted task none = update (inserted_fields task) (keep set_always task)
upserted task (some doc) = update doc (keep set_always task)

abbrev pub is_open_task : State → Bool
is_open_task doc = is_text "pending" (get "status" doc) || is_text "running" (get "status" doc)

-- {"$push": {"outputs": {"$each": outputs}}}
abbrev pub pushed : List Value → State → State
pushed outputs doc =
    insert "outputs" (array (items (list_or_empty (get "outputs" doc) ++ outputs))) doc

module _ (mongo : Collection State) where
  open mongo use {Store, find_one, find_one_and_update}

  abbrev pub update_one : String → (State → State) → Store → Store
  update_one id f s = (find_one_and_update id (λ doc. true) f s).1

  unfoldable pub save_task : String → State → Store → Store
  unfolding upserted
  save_task id task s = mongo.replace_one id (upserted task (find_one id s)) s

  unfoldable pub get_task : String → Store → Option State
  get_task = find_one

  unfoldable pub update_task : String → State → Store → Store
  update_task id fields = update_one id (λ doc. update doc fields)

  unfoldable pub append_outputs : String → List Value → Store → Store
  append_outputs id [] s = s
  append_outputs id (o ∷ outputs) s = update_one id (pushed (o ∷ outputs)) s

  unfoldable pub list_running_tasks : Store → List State
  list_running_tasks = mongo.find is_open_task

  -- A task that is saved again keeps its outputs, its count of attempts and the other fields that
  -- are set on creation, whatever the new document says of them, and takes every other field that
  -- the new document has from it.
  save_task_again :
      (id : String) (task doc : State) (s : Store) (k : String)
      → find_one id s ≡ some doc
      → (find_one id (save_task id task s) ≡ some (upserted task (some doc)))
        × (lookup k (upserted task (some doc)) ≡ (
            if k == "_id" || is_insert_only k
            then lookup k doc
            else or_else (lookup k task) (lookup k doc)))
  unfolding save_task upserted
  save_task_again id task doc s k h = (
    rw (h, save_task)
        (ground (arith, mongo.find-replace id (upserted task (some doc)) s id, eq_iff id id)),
    ground (
      arith,
      lookup-update k doc (keep set_always task),
      lookup-keep set_always (λ j. not (j == "_id") && not (is_insert_only j)) (λ j v. refl) task k,
    ),
  )
