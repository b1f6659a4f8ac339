-- ===== src/Examples/Slack.antt =====
-- A click on "approve" that Slack signed, and replies to two questions.
use langgraph_backend.Base.{
  ltb, ◌+◌, ◌-◌, ℕ, zero, suc, String, ◌≡◌, refl, ap, ◌∙◌, sym, some, List, [], ◌∷◌, ◌==◌, arith,
}
use langgraph_backend.Base.Dict.{lookup}
use langgraph_backend.Value.{Value, text, array, items, record_of}
use langgraph_backend.Texts.{length_of, strip, lstrip}
use langgraph_backend.Texts.Numbers.{leading_number}
use langgraph_backend.Slack.{Slack, SlackRequest}
use langgraph_backend.Slack.Answers.{
  kept_lines, numbered_lines, answer_at, parse_slack_answers, parse_slack_answers_lem,
  last_numbered,
}

-- Numbers as tallies.
unfoldable decimal : ℕ → String
decimal zero = ""
decimal (suc n) = String.◌∷◌ "|" (decimal n)

length_of-decimal : (n : ℕ) → length_of (decimal n) ≡ n
unfolding length_of decimal
length_of-decimal zero = refl
length_of-decimal (suc n) = omega (arith, length_of-decimal n)

injective : (i j : ℕ) → decimal i ≡ decimal j → i ≡ j
injective i j e = sym (length_of-decimal i) ∙ ap length_of e ∙ length_of-decimal j

abbrev two_lines : String → List String
two_lines s = "2) tomorrow" ∷ "see you" ∷ []

parse_slack_answers_lem_example :
    lookup (decimal 1) (parse_slack_answers decimal two_lines "" 2) ≡ some "tomorrow"
unfolding answer_at kept_lines numbered_lines leading_number strip lstrip last_numbered
parse_slack_answers_lem_example =
    parse_slack_answers_lem decimal injective two_lines "" 2 1 (omega arith)

abbrev click : Value
click = record_of (
    (
      "actions",
      array (items (record_of (("action_id", text "approve") ∷ ("value", text "run-1") ∷ []) ∷ [])),
    )
    ∷ [])

abbrev slack : Slack
slack = record {
  python = record {
    hexdigest = λ secret body. secret;
    compare_digest = λ s t. some (s == t);
    json_loads = λ s. some click;
    json_dumps = λ v. "{}";
  };
  seconds = λ s. some 100;
  is_far = λ a b. ltb 300 ((a - b) + (b - a));
  decode = λ s. some s;
  form_payload = λ s. s;
  signing_secret = "s3cret";
  bot_token = "";
}

abbrev clicked : SlackRequest
clicked = record { timestamp = "100"; signature = "v0=s3cret"; body = "payload" }

abbrev whole_line : String → List String
whole_line s = s ∷ []
