-- ===== src/Examples/Assistant.antt =====
-- An agent that is changed without its
-- addons, and the jobs of a workflow whose schedule was dropped.
use langgraph_backend.Base.{◌≡◌, refl, true, none, some, [], ◌∷◌}
use langgraph_backend.Base.Dict.{lookup}
use langgraph_backend.Value.{text, State}
use langgraph_backend.Texts.{concat}
use langgraph_backend.Mongo.{Collection}
use langgraph_backend.Mongo.Memory.{memory}
use langgraph_backend.Approval.{ok}
use langgraph_backend.AgentDefinition.{AgentDefinition, AgentAddon}
use langgraph_backend.AgentDefinition.Routes.{AgentRequest, Validate, update_agent, get_agent}
use langgraph_backend.AgentDefinition.Routes.Update.{replaced, update-get}
use langgraph_backend.Recovery.Schedule.{CronScheduler, refresh_cron, taken, refresh_cron_lem}

abbrev agents : Collection AgentDefinition
agents = memory AgentDefinition

abbrev coder : AgentDefinition
coder = record {
  id = "coder";
  name = "Coder";
  description = none;
  default_runtime = "docker";
  agent_input = [];
  image = some "coder:1";
  health_timeout = 900;
  helm_chart = none;
  helm_values = [];
  addons = AgentAddon.s3 "results" "runs/{workflow_id}" ∷ [];
}

unfoldable staff : agents.Store
unfolding memory
staff = ("coder", coder) ∷ []

abbrev validate : Validate
validate addons = none

abbrev patch : AgentRequest
patch = record {
  id = "";
  name = "Coder";
  description = none;
  default_runtime = "docker";
  agent_input = ("model", text "small") ∷ [];
  image = some "coder:2";
  helm_chart = none;
  helm_values = [];
  addons = none;
}

update-get_example :
    let d = replaced agents validate "coder" patch coder.addons in
    let after = update_agent agents validate "coder" patch (some staff) in
    (after.0 ≡ ok d) × ((get_agent agents validate "coder" after.1).0 ≡ ok d)
unfolding memory staff lookup
update-get_example =
    update-get agents validate "coder" patch coder coder.addons staff refl refl refl

abbrev cron_step : State
cron_step = ("id", text "nightly") ∷ ("type", text "cron") ∷ ("schedule", text "0 2 * * *") ∷ []

abbrev two_jobs : CronScheduler
two_jobs = record { jobs = ("a:weekly", "a:weekly") ∷ ("b:nightly", "b:nightly") ∷ []; calls = [] }

refresh_cron_lem_example :
    lookup "a:weekly" (refresh_cron (λ cron. true) "a" (some (cron_step ∷ [])) two_jobs).jobs ≡ none
unfolding taken lookup concat
refresh_cron_lem_example = refresh_cron_lem (λ cron. true) "a" (cron_step ∷ []) "a:weekly" two_jobs
