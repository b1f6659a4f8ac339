-- ===== src/Execute/Laws.antt =====
-- What is left of an execution that failed or was cut off.
use langgraph_backend.Base.{
  String, ◌≡◌, ◌≢◌, refl, ap, ◌∙◌, false, Option, none, some, List, [], ◌∷◌, ◌++◌, get_or, or_else,
  arith, eq_iff, inl, inr, Option-cases,
}
use langgraph_backend.Base.Dict.{
  lookup, insert, update, lookup-update, lookup-insert, lookup-inserted,
}
use langgraph_backend.Texts.{concat}
use langgraph_backend.Value.{
  Value, null, text, State, get, record_of, dict_or_empty, entries-fields,
}
use langgraph_backend.GraphRun.{GraphRun}
use langgraph_backend.Mongo.{Collection}
use langgraph_backend.Mongo.Runs.{find-save}
use langgraph_backend.Step.{Step, returned}
use langgraph_backend.Guards.{World}
use langgraph_backend.Node.{failed, Render, error_record}
use langgraph_backend.Execute.{
  OpenHands, result_key, conv_id_key, named, conv_map, existing_conversation, conversation_entries,
  save_conv_id, save_conv_ids, task_of, failure_output, execute_node,
}

conv_id_key-conv_map : (step : Step) → conv_id_key step ≢ "_conv_map"
unfolding concat
conv_id_key-conv_map step e = cc e

lookup_first : (k : String) (v : Value) (d : State) → lookup k ((k, v) ∷ d) ≡ some v
unfolding lookup
lookup_first k v d = ground (arith, eq_iff k k)

get-update : (k : String) (a b : State) (v : Value) → lookup k b ≡ some v → get k (update a b) ≡ v
get-update k a b v h = ap (λ (o : Option Value). get_or o null) (lookup-update k a b ∙ first)
  where
    first : or_else (lookup k b) (lookup k a) ≡ some v
    first = rw h refl

captured :
    (key : String) (id error : Value)
    → key ≢ "__failed_step__"
    → let output = insert "__failed_step__" id ((key, error) ∷ []) in
      (get "__failed_step__" output ≡ id) × (get key output ≡ error)
captured key id error n = (
  ground (arith, lookup-inserted "__failed_step__" id ((key, error) ∷ [])),
  ground (
    arith,
    lookup-insert "__failed_step__" key id ((key, error) ∷ []),
    lookup_first key error [],
    eq_iff "__failed_step__" key,
  ),
)

module _ (step : Step) (known state : State) (oh_id : Value) where
  of_step :
      named step.conversation_id ≡ none
      → existing_conversation step state ≡ get (conv_id_key step) state
  unfolding existing_conversation
  of_step e = rw (e, existing_conversation) refl

  of_conversation :
      (id : String)
      → named step.conversation_id ≡ some id
      → existing_conversation step state ≡ get id (conv_map state)
  unfolding existing_conversation
  of_conversation id e = rw (e, existing_conversation) refl

  entries_of_step :
      named step.conversation_id ≡ none
      → conversation_entries step known oh_id ≡ (conv_id_key step, oh_id) ∷ []
  unfolding conversation_entries
  entries_of_step e = rw (e, conversation_entries) refl

  entries_of_conversation :
      (id : String)
      → named step.conversation_id ≡ some id
      → conversation_entries step known oh_id
        ≡ (conv_id_key step, oh_id) ∷ ("_conv_map", record_of (insert id oh_id known)) ∷ []
  unfolding conversation_entries
  entries_of_conversation id e = rw (e, conversation_entries) refl

  get-entries :
      (v : Value)
      → get "_conv_map" (update state ((conv_id_key step, oh_id) ∷ ("_conv_map", v) ∷ [])) ≡ v
  unfolding lookup
  get-entries v =
      get-update "_conv_map" state ((conv_id_key step, oh_id) ∷ ("_conv_map", v) ∷ []) v
        (ground (arith, eq_iff (conv_id_key step) "_conv_map", conv_id_key-conv_map step))

existing-conversation_entries :
    (step : Step) (known state : State) (oh_id : Value)
    → existing_conversation step (update state (conversation_entries step known oh_id)) ≡ oh_id
existing-conversation_entries step known state oh_id =
    elim (Option-cases (named step.conversation_id)) [
      | inl e ↦
          ap (λ (d : State). existing_conversation step (update state d))
            (entries_of_step step known state oh_id e)
          ∙ of_step step known _ oh_id e
          ∙ get-update (conv_id_key step) state ((conv_id_key step, oh_id) ∷ []) oh_id
              (lookup_first (conv_id_key step) oh_id [])
      | inr (id, e) ↦
          ap (λ (d : State). existing_conversation step (update state d))
            (entries_of_conversation step known state oh_id id e)
          ∙ of_conversation step known _ oh_id id e
          ∙ ap (λ (v : Value). get id (dict_or_empty v)) (get-entries step known state oh_id _)
          ∙ ap (get id) (entries-fields (insert id oh_id known))
          ∙ ap (λ (o : Option Value). get_or o null) (lookup-inserted id oh_id known)
    ]

module _ (mongo : Collection GraphRun) where
  -- When OpenHands raises at a step that does not stop on failures, the node does not raise: its
  -- output has the error under the step's output key, where that is not the sentinel's, and the
  -- sentinel names the step.
  pub execute_node_captures :
      (render : Render) (openhands : OpenHands) (step : Step) (state : State) (w : World mongo)
      (e : String)
      → step.stop_on_failure ≡ false
      → (openhands (task_of render step state)).1 ≡ failed e
      → result_key step ≢ "__failed_step__"
      → (output : State) × ((execute_node mongo render (some openhands) step state w).0
          ≡ returned output)
        × (get "__failed_step__" output ≡ text step.id)
        × (get (result_key step) output ≡ error_record e)
  unfolding execute_node failure_output
  execute_node_captures render openhands step state w e s f n =
      let (sentinel, error) = captured (result_key step) (text step.id) (error_record e) n in
      rw (f, execute_node) (rw (s, failure_output) (_, refl, sentinel, error))

  -- Of the conversation ids that OpenHands reported one after the other, the stored run has the
  -- last, and its state gives that as the step's existing conversation.
  pub save_conv_ids_last :
      (step : Step) (ids : List String) (oh_id : String) (w : World mongo)
      → let w' = save_conv_ids mongo step (ids ++ oh_id ∷ []) w in
        (mongo.find_one w'.run.id w'.stored ≡ some w'.run)
        × (existing_conversation step w'.run.state ≡ text oh_id)
  unfolding save_conv_ids save_conv_id
  save_conv_ids_last step [] oh_id w =
      (find-save mongo _ _, existing-conversation_entries step _ w.run.state (text oh_id))
  save_conv_ids_last step (i ∷ ids) oh_id w = save_conv_ids_last step ids oh_id _
