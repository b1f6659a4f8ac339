-- ===== src/Notify.antt =====
-- app/infrastructure/notifications/webhook_notifier.py: texts for Slack and for webhooks.
-- Here: `_render`, `_truncate`, `_summarize_for_slack` and `_render_value`.
pub mod Limits
pub mod Request
pub mod Questions
use langgraph_backend.Base.{
  ℕ, String, Bool, true, false, Option, none, some, List, [], ◌∷◌, ◌==◌, ◌&&◌, ◌||◌, ◌>>=◌,
  if◌then◌else◌, leb,
}
use langgraph_backend.Base.Dict.{has_key}
use langgraph_backend.Value.{
  Value, null, flag, int, float, text, array, object, Items, nil, cons, Fields, end, field, State,
  entries, get, is_text,
}
use langgraph_backend.Texts.{◌<>◌, strip, length_of, take_text}
use langgraph_backend.Texts.Lengths.{cut}

-- `string.Formatter().vformat` with a dict that has "" for missing keys: the text, a ValueError, or
-- any other exception.
pub data Formatted : Type 0 where
  formatted : String → Formatted
  value_error crashed : Formatted

abbrev pub Formatter : Type 0
Formatter = String → State → Formatted

-- The meta-LLM: its answer to a prompt; `none` where it cannot be built or its call raises.
abbrev pub Summarizer : Type 0
Summarizer = String → Option String

abbrev pub slack_block_text_limit : ℕ
slack_block_text_limit = 2900

abbrev pub summarize_input_cap : ℕ
summarize_input_cap = 20000

unfoldable pub truncate : String → String
unfolding cut
truncate value = cut slack_block_text_limit "\n…(truncated)" value

unfoldable pub summarize_prompt : String → String
unfolding take_text
summarize_prompt s =
    "Cut text below to fit Slack block. HARD LIMIT: 2600 chars. Not a target — a wall.\n"
    <> ("Keep: headers, key names/IDs/files/numbers, bullets.\n"
        <> ("Drop: prose, repetition, detail.\n"
            <> ("Write caveman-style: drop articles/filler words, short fragments ok, keep technical terms exact.\n"
                <> ("Length beats completeness. Cut harder if unsure.\n"
                    <> ("Output: summary only. No preamble, no fences.\n\n"
                        <> ("TEXT:\n" <> take_text summarize_input_cap s))))))

unfoldable pub summarize_for_slack : Summarizer → String → String
unfolding truncate
summarize_for_slack llm s = elim (llm (summarize_prompt s)) [
  | none ↦ truncate s
  | some answer ↦
      let summary = strip answer in
      if summary == ""
      then truncate s
      else if leb (length_of summary) slack_block_text_limit
      then summary
      else truncate summary
]

-- The summarizer is that of the settings, where they are passed.
unfoldable pub fit : Option Summarizer → Bool → String → String
unfolding summarize_for_slack truncate
fit settings false rendered = rendered
fit settings true rendered =
    if leb (length_of rendered) slack_block_text_limit
    then rendered
    else (elim settings [ none ↦ truncate rendered | some llm ↦ summarize_for_slack llm rendered ])

-- {"type": "mrkdwn" | "plain_text", "text": …}
abbrev pub is_block_text : Fields → Bool
is_block_text fs =
    let type = get "type" (entries fs) in
    (is_text "mrkdwn" type || is_text "plain_text" type) && has_key "text" (entries fs)

module _ (vformat : Formatter) (settings : Option Summarizer) (ctx : State) where
  -- `none` is an exception other than a ValueError.
  unfoldable pub render : String → Option String
  render template = elim (vformat template ctx) [
    | formatted s ↦ some s
    | value_error ↦ some template
    | crashed ↦ none
  ]

  -- The flag says whether the value is the text of a block.
  unfoldable mutual
    unfolding render fit

    pub render_value : Bool → Value → Option Value
    render_value in_block (text s) = render s >>= λ r. some (text (fit settings in_block r))
    render_value in_block (object fs) =
        rendered_fields (is_block_text fs) fs >>= λ gs. some (object gs)
    render_value in_block (array vs) = rendered_items vs >>= λ ws. some (array ws)
    render_value in_block null = some null
    render_value in_block (flag b) = some (flag b)
    render_value in_block (int i) = some (int i)
    render_value in_block (float b) = some (float b)

    pub rendered_fields : Bool → Fields → Option Fields
    rendered_fields block end = some end
    rendered_fields block (field k v fs) = render_value (block && k == "text") v >>= λ w.
        rendered_fields block fs >>= λ gs. some (field k w gs)

    pub rendered_items : Items → Option Items
    rendered_items nil = some nil
    rendered_items (cons v vs) =
        render_value false v >>= λ w. rendered_items vs >>= λ ws. some (cons w ws)
