-- ===== src/Node/Call.antt =====
-- The `http_call` node of app/infrastructure/orchestration/yaml_graph.py, with `_render_deep`.
use langgraph_backend.Base.{
  ℕ, String, Bool, not, Option, none, some, [], ◌∷◌, ◌==◌, ◌&&◌, ◌||◌, if◌then◌else◌, leb,
}
use langgraph_backend.Base.Dict.{Dict}
use langgraph_backend.Base.Int.{pos}
use langgraph_backend.Value.{
  Value, int, text, array, object, Items, nil, cons, Fields, end, field, State, truthy, record_of,
}
use langgraph_backend.Step.{Step, text_or, Outcome, raised}
use langgraph_backend.Node.{Reply, answered, failed, Render, map_values, one, error_record}

-- The answer to an HTTP request.
pub record Response : Type 0 where
  pub status_code : ℕ
  pub body : String

-- What is sent; there is no body where the method takes none, or the step gives none.
pub record Request : Type 0 where
  pub method : String
  pub url : String
  pub headers : Dict String
  pub body : Option Value

-- `_render_deep`
unfoldable mutual
  pub render_deep : Render → State → Value → Value
  render_deep render state (text s) = text (render s state)
  render_deep render state (object fs) = object (render_fields render state fs)
  render_deep render state (array vs) = array (render_items render state vs)
  render_deep render state v = v

  pub render_fields : Render → State → Fields → Fields
  render_fields render state end = end
  render_fields render state (field k v fs) =
      field k (render_deep render state v) (render_fields render state fs)

  pub render_items : Render → State → Items → Items
  render_items render state nil = nil
  render_items render state (cons v vs) =
      cons (render_deep render state v) (render_items render state vs)

abbrev pub takes_no_body : String → Bool
takes_no_body method = method == "GET" || method == "DELETE" || method == "HEAD"

-- The request, with Python's str.upper.
unfoldable pub request_of : Render → (String → String) → Step → State → Request
unfolding render_deep
request_of render upper step state =
    let method = upper step.method in
    record {
      method = method;
      url = render step.url state;
      headers = map_values (λ v. render v state) step.headers;
      body =
          if takes_no_body method
          then none
          else if truthy step.body
          then some (render_deep render state step.body)
          else none;
    }

-- The `http_call` node; `client` sends the request, and what it raises is no ValueError.
unfoldable pub http_call_node :
    Render → (String → String) → (Request → Reply Response) → Step → State → Outcome
unfolding request_of
http_call_node render upper client step state = elim (client (request_of render upper step state)) [
  | failed e ↦ one (text_or step.output_key step.id) (error_record e)
  | answered r ↦
      if leb 400 r.status_code && not step.ignore_http_errors
      then raised "HTTP error"
      else one (text_or step.output_key step.id)
          (record_of (("status", int (pos r.status_code)) ∷ ("body", text r.body) ∷ []))
]
