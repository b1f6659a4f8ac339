-- ===== src/Examples/Webhook.antt =====
-- A request that carries the wrong digest.
use langgraph_backend.Base.{
  String, ◌≡◌, refl, true, false, none, some, List, [], ◌∷◌, ◌==◌, is_some, arith, eq_iff,
}
use langgraph_backend.Value.{text, State}
use langgraph_backend.Approval.{Runner}
use langgraph_backend.Base.Dict.{lookup}
use langgraph_backend.Webhook.{WebhookRequest, Python, http_step, is_authentic}
use langgraph_backend.Webhook.Run.{find_workflow, receive_webhook, receive_webhook_denied, is_ok}
use langgraph_backend.Examples.{db}
use langgraph_backend.Examples.Recovery.{make_runner, runner, container}

abbrev python : Python
python = record {
  hexdigest = λ secret body. secret;
  compare_digest = λ s t. some (s == t);
  json_loads = λ s. none;
  json_dumps = λ v. "{}";
}

compare_sound : (s t : String) → python.compare_digest s t ≡ some true → s ≡ t
compare_sound s t h = ground (arith, eq_iff s t)

abbrev raw : List State
raw = (("id", text "hook") ∷ ("type", text "http") ∷ ("webhook_secret", text "s3cret") ∷ []) ∷ []

abbrev raw_steps : Runner → List State
raw_steps r = raw

abbrev forged : WebhookRequest
forged = record { body = "{}"; authorization = ""; signature = "guess" }

receive_webhook_denied_example :
    let r = receive_webhook db make_runner raw_steps none python "" "run-9" "wf" forged container in
    (is_ok r.response ≡ false) × (r.container ≡ container) × (is_some r.task ≡ false)
unfolding find_workflow is_authentic http_step lookup
receive_webhook_denied_example =
    receive_webhook_denied db make_runner raw_steps none python "" "run-9" "wf" forged container
      runner none raw compare_sound refl refl
