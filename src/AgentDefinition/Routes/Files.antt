-- ===== src/AgentDefinition/Routes/Files.antt =====
-- The routes of app/api/routes/agents.py on the files of an agent's S3 addon. The bucket is Google's,
-- so what it lists and signs is given.
use langgraph_backend.Base.{
  String, not, Option, none, some, List, [], ◌==◌, ◌||◌, if◌then◌else◌, get_or, starts_with,
}
use langgraph_backend.Base.Dict.{lookup}
use langgraph_backend.Value.{text}
use langgraph_backend.Texts.{replace, strip}
use langgraph_backend.GraphRun.{GraphRun}
use langgraph_backend.Mongo.{Collection}
use langgraph_backend.AgentDefinition.{AgentDefinition, s3_addon}
use langgraph_backend.AgentDefinition.Backend.{get}
use langgraph_backend.Approval.{
  bad_request, not_found, internal, not_implemented, Response, ok, error,
}

module _ (mongo : Collection AgentDefinition) where
  open mongo use {Store}

  -- The bucket and the path with the run's ids; a project's id that is no text raises.
  abbrev pub resolved_path : String → String → GraphRun → Response (String × String)
  unfolding replace
  resolved_path bucket path run = elim (get_or (lookup "project_id" run.state) (text "")) [
    | text project ↦
        ok (bucket, replace "{project_id}" project (replace "{workflow_id}" run.id path))
    | _ ↦ error internal
  ]

  unfoldable pub resolve_s3_addon :
      (String → Option GraphRun) → String → String → Option Store → Response (String × String)
  unfolding get resolved_path
  resolve_s3_addon run_of agent_id run_id none = error not_implemented
  resolve_s3_addon run_of agent_id run_id (some s) = elim (get mongo agent_id s) [
    | none ↦ error not_found
    | some d ↦ elim (s3_addon d.addons) [
      | none ↦ error not_found
      | some (bucket, path) ↦ elim (run_of run_id) [
        | none ↦ error not_found
        | some run ↦ resolved_path bucket path run
      ]
    ]
  ]

  -- The names in the bucket with a prefix are given.
  unfoldable pub list_s3_addon_files :
      (String → String → List String)
      → (String → Option GraphRun)
      → String
      → String
      → Option Store
      → Response (List String)
  unfolding resolve_s3_addon strip
  list_s3_addon_files list_blobs run_of agent_id run_id backend =
      elim (resolve_s3_addon run_of agent_id run_id backend) [
        | error e ↦ error e
        | ok (bucket, path) ↦ if strip path == "" then ok [] else ok (list_blobs bucket path)
      ]

  -- The signed URL of a file in a bucket is given, `none` where there is no such file.
  unfoldable pub get_s3_signed_url :
      (String → String → Option String)
      → (String → Option GraphRun)
      → String
      → String
      → String
      → Option Store
      → Response String
  unfolding resolve_s3_addon
  get_s3_signed_url sign run_of agent_id run_id file_path backend =
      elim (resolve_s3_addon run_of agent_id run_id backend) [
        | error e ↦ error e
        | ok (bucket, path) ↦
            if path == "" || not (starts_with file_path path)
            then error bad_request
            else (elim (sign bucket file_path) [ none ↦ error not_found | some url ↦ ok url ])
      ]
