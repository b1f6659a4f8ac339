-- ===== src/AgentDefinition/Routes/Update.antt =====
-- A change of an agent, and what the next request for it finds.
use langgraph_backend.Base.{String, ◌≡◌, refl, true, some, List, arith, eq_iff}
use langgraph_backend.Mongo.{Collection}
use langgraph_backend.AgentDefinition.{AgentDefinition, AgentAddon, is_runtime}
use langgraph_backend.AgentDefinition.Backend.{get, update}
use langgraph_backend.Approval.{ok}
use langgraph_backend.AgentDefinition.Routes.{
  AgentRequest, Validate, agent_of, kept_addons, update_agent, get_agent,
}

module _ (mongo : Collection AgentDefinition) (validate : Validate) where
  open mongo use {Store, find_one}

  -- What a change of an agent stores: the request's fields, with the addons of before where the
  -- request omits them, and with the default time for health checks.
  abbrev pub replaced : String → AgentRequest → List AgentAddon → AgentDefinition
  replaced agent_id body addons = record {
    id = agent_id;
    name = body.name;
    description = body.description;
    default_runtime = body.default_runtime;
    agent_input = body.agent_input;
    image = body.image;
    health_timeout = 300;
    helm_chart = body.helm_chart;
    helm_values = body.helm_values;
    addons = addons;
  }

  changed :
      (agent_id : String) (body : AgentRequest) (existing : AgentDefinition)
      (addons : List AgentAddon) (s : Store)
      → find_one agent_id s ≡ some existing
      → is_runtime body.default_runtime ≡ true
      → kept_addons mongo validate existing body ≡ some addons
      → update_agent mongo validate agent_id body (some s) ≡ (
        ok (replaced agent_id body addons),
        some (update mongo agent_id (replaced agent_id body addons) s),
      )
  unfolding update_agent get agent_of
  changed agent_id body existing addons s e b f =
      rw (e, update_agent) (rw (f, update_agent) (rw (b, update_agent) refl))

  found :
      (agent_id : String) (d : AgentDefinition) (s : Store)
      → find_one agent_id (update mongo agent_id d s) ≡ some (record d { id = agent_id })
  unfolding update
  found agent_id d s = ground (
    arith,
    mongo.find-replace agent_id (record d { id = agent_id }) s agent_id,
    eq_iff agent_id agent_id,
  )

  -- A change of a stored agent to a known runtime, whose addons are omitted or valid, is answered
  -- by the agent that the next request for it finds: every field is the request's, but for the
  -- addons, which are those of before where they are omitted, and for the time for health checks,
  -- which is 300 seconds whatever it was.
  pub update-get :
      (agent_id : String) (body : AgentRequest) (existing : AgentDefinition)
      (addons : List AgentAddon) (s : Store)
      → find_one agent_id s ≡ some existing
      → is_runtime body.default_runtime ≡ true
      → kept_addons mongo validate existing body ≡ some addons
      → let d = replaced agent_id body addons in
        let after = update_agent mongo validate agent_id body (some s) in
        (after.0 ≡ ok d) × ((get_agent mongo validate agent_id after.1).0 ≡ ok d)
  unfolding get_agent get
  update-get agent_id body existing addons s e b f =
      let d : AgentDefinition = replaced agent_id body addons in
      rw (changed agent_id body existing addons s e b f, get_agent)
        (refl, rw (found agent_id d s, get_agent) refl)
