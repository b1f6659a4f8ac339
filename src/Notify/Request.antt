-- ===== src/Notify/Request.antt =====
-- `send_approval_notification` of app/infrastructure/notifications/webhook_notifier.py, and the
-- payload of `post_slack_addon_notification`.
use Prim.Native.Char.{code}
use langgraph_backend.Base.{
  String, false, Option, none, some, [], ◌∷◌, ◌==◌, ◌&&◌, ◌>>=◌, if◌then◌else◌, nat_eq, get_or,
}
use langgraph_backend.Base.Dict.{Dict, lookup, insert, set_default}
use langgraph_backend.Value.{
  Value, text, array, object, Items, nil, cons, State, entries, get, truthy, is_text, record_of,
}
use langgraph_backend.Texts.{◌<>◌}
use langgraph_backend.Executor.Judge.{Cases, contains}
use langgraph_backend.Notify.{Formatter, Summarizer, render, render_value}

-- s.rstrip("/")
unfoldable pub rstrip_slash : String → String
rstrip_slash String.[] = ""
rstrip_slash (String.◌∷◌ c s) =
    let rest = rstrip_slash s in if nat_eq (code c) 47 && rest == "" then "" else String.◌∷◌ c rest

pub record Credentials : Type 0 where
  pub bot_token : String
  pub approvals_channel : String

-- What the templates may name, besides the state.
unfoldable pub approval_context : Credentials → String → String → State → State
unfolding rstrip_slash
approval_context slack run_id base_url state =
    let base = rstrip_slash base_url <> ("/api/v1/callbacks/" <> run_id) in
    set_default "slack_approvals_channel" (text slack.approvals_channel) (
      set_default "slack_bot_token" (text slack.bot_token) (
        insert "reject_url" (text (base <> "/reject"))
          (insert "approve_url" (text (base <> "/approve")) (insert "run_id" (text run_id) state))))

pub record Request : Type 0 where
  pub method : String
  pub url : String
  pub headers : Dict String
  pub basic_auth : Option (String × String)
  pub payload : Value

-- A text of a dict with its default; `none` where it is no text, and calling its methods raises.
abbrev pub text_at : String → String → State → Option String
text_at key default d = elim (get_or (lookup key d) (text default)) [ text s ↦ some s | _ ↦ none ]

abbrev pub dict_at : String → State → Option State
dict_at key d = elim (get_or (lookup key d) (record_of [])) [
  | object fs ↦ some (entries fs)
  | _ ↦ none
]

-- mention + d.get("text", "")
abbrev pub mentioned : String → State → Option State
mentioned mention d = text_at "text" "" d >>= λ s. some (insert "text" (text (mention <> s)) d)

-- The first section block with a text object has the mention ahead of its text; `none` raises.
unfoldable pub mention_block : String → Items → Option Items
mention_block mention nil = some nil
mention_block mention (cons (object fs) blocks) =
    let rest = mention_block mention blocks in
    let later = rest >>= λ bs. some (cons (object fs) bs) in
    if is_text "section" (get "type" (entries fs))
    then (elim (get "text" (entries fs)) [
      | object ts ↦ mentioned mention (entries ts) >>= λ t.
          some (cons (record_of (insert "text" (record_of t) (entries fs))) blocks)
      | _ ↦ later
    ])
    else later
mention_block mention (cons block blocks) = none

abbrev pub mention_blocks : String → State → Option State
unfolding mention_block
mention_blocks mention payload = elim (lookup "blocks" payload) [
  | none ↦ some payload
  | some (array blocks) ↦
      mention_block mention blocks >>= λ bs. some (insert "blocks" (array bs) payload)
  | some _ ↦ none
]

-- A message to Slack goes to the thread of the run's earlier one, and names who approved that.
unfoldable pub threaded : (Value → String) → String → State → Value → Option Value
unfolding mention_blocks
threaded str url state payload =
    let thread_ts = get "_slack_thread_ts" state in
    let approver_id = get "_slack_approver_id" state in
    if contains "slack.com/api/chat.postMessage" url && truthy thread_ts
    then (elim payload [
      | object fs ↦
          let d = insert "thread_ts" thread_ts (entries fs) in
          let mention = "<@" <> (str approver_id <> "> ") in
          if truthy approver_id
          then (mentioned mention d >>= λ e. mention_blocks mention e >>= λ f. some (record_of f))
          else some (record_of d)
      | _ ↦ none
    ])
    else some payload

module _ (vformat : Formatter) (settings : Option Summarizer) (str : Value → String) where
  unfoldable pub render_headers : State → State → Option (Dict String)
  unfolding render
  render_headers ctx [] = some []
  render_headers ctx ((k, v) ∷ d) =
      render vformat settings ctx (str v) >>= λ s. render_headers ctx d >>= λ hs. some ((k, s) ∷ hs)

  -- The headers with the authorization, and what httpx authenticates with.
  unfoldable pub authorized :
      Cases → State → State → Dict String → Option (Dict String × Option (String × String))
  unfolding render
  authorized python ctx auth headers = text_at "type" "" auth >>= λ type.
      if python.lower type == "bearer"
      then (text_at "token" "" auth >>= λ t. render vformat settings ctx t >>= λ token.
          some (insert "Authorization" ("Bearer " <> token) headers, none))
      else if python.lower type == "basic"
      then (text_at "username" "" auth >>= λ u. render vformat settings ctx u >>= λ username.
          text_at "password" "" auth >>= λ p.
          render vformat settings ctx p >>= λ password. some (headers, some (username, password)))
      else some (headers, none)

  -- What is sent for a `notify` with a URL; `none` is an exception.
  unfoldable pub approval_request : Cases → State → State → State → Option Request
  unfolding render render_value render_headers authorized threaded
  approval_request python notify ctx state = text_at "url" "" notify >>= λ template.
      render vformat settings ctx template >>= λ url. text_at "method" "POST" notify >>= λ method.
      dict_at "headers" notify >>= λ given. render_headers ctx given >>= λ headers.
      dict_at "auth" notify >>= λ auth. authorized python ctx auth headers >>= λ (headers', basic).
      render_value vformat settings ctx false (get_or (lookup "payload" notify) (record_of []))
      >>= λ payload. threaded str url state payload >>= λ message. some record {
        method = python.upper method;
        url = url;
        headers = headers';
        basic_auth = basic;
        payload = message;
      }

  -- The HTTP call: the JSON of its answer; `none` where it fails, is refused or has no JSON. The
  -- result is `none` where an exception leaves the function.
  unfoldable pub send_approval_notification :
      Cases
      → Credentials
      → (Request → Option Value)
      → State
      → String
      → State
      → String
      → Option (Option Value)
  unfolding approval_request approval_context
  send_approval_notification python slack post notify run_id state base_url =
      if truthy (get "url" notify)
      then (approval_request python notify (approval_context slack run_id base_url state) state
          >>= λ request. some (post request))
      else some none

  -- The payload of a workflow addon's message, from its template, with the questions as text; `none`
  -- where nothing is posted, or an exception leaves the function.
  unfoldable pub addon_payload :
      (String → Option Value) → Credentials → String → String → String → State → Option Value
  unfolding render render_value
  addon_payload json_loads slack template run_id questions state =
      let ctx = set_default "slack_approvals_channel" (text slack.approvals_channel) (
        set_default "slack_bot_token" (text slack.bot_token) (
          set_default "request" (text "")
            (insert "questions" (text questions) (insert "run_id" (text run_id) state)))) in
      render vformat settings ctx template >>= λ s.
      json_loads s >>= λ payload. render_value vformat settings ctx false payload
