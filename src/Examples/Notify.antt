-- ===== src/Examples/Notify.antt =====
-- A message to Slack with one block, whose text is a template of the run's plan.
use langgraph_backend.Base.{String, refl, false, none, [], ◌∷◌, ◌==◌, if◌then◌else◌}
use langgraph_backend.Base.Dict.{lookup}
use langgraph_backend.Value.{Value, text, array, items, record_of, get}
use langgraph_backend.Texts.{length_of}
use langgraph_backend.Notify.{Formatter, formatted, crashed, render_value, fit}
use langgraph_backend.Notify.Limits.{Fits, render_value-Fits}

abbrev vformat : Formatter
vformat template ctx =
    if template == "{plan}"
    then (elim (get "plan" ctx) [ text s ↦ formatted s | _ ↦ crashed ])
    else formatted template

abbrev message : String → Value
message s = record_of (
    ("channel", text "approvals")
    ∷ (
      "blocks",
      array (
          items (
            record_of (
              ("type", text "section")
              ∷ ("text", record_of (("type", text "mrkdwn") ∷ ("text", text s) ∷ []))
              ∷ [])
            ∷ [])),
    )
    ∷ [])

render_value-Fits_example : Fits false (message "{plan}") (message "Ship it")
unfolding render_value fit lookup length_of
render_value-Fits_example =
    render_value-Fits vformat none (("plan", text "Ship it") ∷ []) (message "{plan}")
      (message "Ship it") refl
