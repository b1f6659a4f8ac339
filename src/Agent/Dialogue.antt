-- ===== src/Agent/Dialogue.antt =====
-- Questions and answers between an agent and a person.
use langgraph_backend.Base.{
  String, ◌≡◌, refl, Bool, none, true, false, Option, some, List, get_or, arith, eq_iff, ap, ◌∙◌,
}
use langgraph_backend.Base.Dict.{
  Dict, lookup, insert, remove, lookup-insert, lookup-inserted, lookup-remove,
}
use langgraph_backend.Value.{Value, null, text, State, get}
use langgraph_backend.GraphRun.{GraphRun}
use langgraph_backend.Mongo.{Collection}
use langgraph_backend.Approval.{ok}
use langgraph_backend.Agent.{
  Shared, question_value, agent_question, agent_reply, agent_input, agent_input_end, answered,
  waiting, save_state,
}

module _ (mongo : Collection GraphRun) where
  -- The stored run of that id is filed under its own id.
  abbrev pub Filed : String → GraphRun → Shared mongo → Type 0
  Filed run_id run s = (mongo.find_one run_id s.runs ≡ some run) × (run.id ≡ run_id)

  find-save_state :
      (run_id : String) (run : GraphRun) (state : State) (s : Shared mongo)
      → run.id ≡ run_id
      → mongo.find_one run_id (save_state mongo run state s).runs
        ≡ some (record run { state = state })
  find-save_state run_id run state s e = ground (
    arith,
    mongo.find-replace run.id (record run { state = state }) s.runs run_id,
    eq_iff run.id run_id,
  )

  reply_step :
      (run_id answer : String) (run : GraphRun) (s : Shared mongo)
      → Filed run_id run s
      → Filed run_id
          (record run {
            state = insert "_pending_answer" (text answer) (remove "_pending_question" run.state);
          })
          (agent_reply mongo run_id answer s).1
  unfolding agent_reply
  reply_step run_id answer run s (f, e) =
      rw (f, agent_reply)
        (
          find-save_state run_id run _
              (record s {
                answers = insert run_id answer s.answers;
                answer_events = insert run_id true s.answer_events;
              })
              e,
          e,
        )

  input_answers :
      (run_id answer : String) (run : GraphRun) (s : Shared mongo)
      → Filed run_id run s
      → get "_pending_answer" run.state ≡ text answer
      → ((agent_input mongo run_id s).0 ≡ ok (answered (text answer)))
        × Filed run_id
            (record run { state = remove "_pending_answer" run.state })
            (agent_input mongo run_id s).1
        × ((agent_input mongo run_id s).1.answer_events ≡ remove run_id s.answer_events)
  unfolding agent_input
  input_answers run_id answer run s (f, e) p =
      rw (f, agent_input)
        (rw p (
          refl,
          (
            find-save_state run_id run _
                (record s {
                  answers = remove run_id s.answers;
                  answer_events = remove run_id s.answer_events;
                })
                e,
            e,
          ),
          refl,
        ))

  input_waits :
      (run_id : String) (run : GraphRun) (s : Shared mongo)
      → Filed run_id run s
      → get "_pending_answer" run.state ≡ null
      → lookup run_id s.answer_events ≡ none
      → (agent_input mongo run_id s).0 ≡ ok waiting
  unfolding agent_input
  input_waits run_id run s (f, e) p q =
      rw (f, agent_input) (rw p (ground (arith, q, lookup-inserted run_id false s.answer_events)))

  get-pending_inserted :
      (answer : String) (state : State)
      → get "_pending_answer" (insert "_pending_answer" (text answer) state) ≡ text answer
  get-pending_inserted answer state =
      ground (arith, lookup-insert "_pending_answer" "_pending_answer" (text answer) state)

  lookup-remove_self : (key : String) (d : Dict Bool) → lookup key (remove key d) ≡ none
  lookup-remove_self key d = ground (arith, lookup-remove key key d, eq_iff key key)

  get-pending_removed :
      (state : State) → get "_pending_answer" (remove "_pending_answer" state) ≡ null
  get-pending_removed state =
      ground (arith, lookup-remove "_pending_answer" "_pending_answer" state)

  question_step :
      (run_id question : String) (options : Option (List String)) (run : GraphRun)
      (s : Shared mongo)
      → Filed run_id run s
      → Filed run_id
          (record run {
            state = insert "_pending_question" (question_value question options) run.state;
          })
          (agent_question mongo run_id question options s).1
  unfolding agent_question
  question_step run_id question options run s (f, e) =
      rw (f, agent_question)
        (
          find-save_state run_id run _
              (record s {
                questions = insert run_id (question_value question options) s.questions;
                answer_events = insert run_id false s.answer_events;
                answers = remove run_id s.answers;
              })
              e,
          e,
        )

  reply-delivered :
      (run_id answer : String) (run : GraphRun) (s : Shared mongo)
      → Filed run_id run s
      → (agent_input_end mongo true run_id (agent_reply mongo run_id answer s).1).0 ≡ ok answer
  unfolding agent_reply agent_input_end
  reply-delivered run_id answer run s (f, e) =
      rw (f, agent_reply)
        (ap (λ (o : Option String). ok (get_or o "")) (lookup-inserted run_id answer s.answers))

  get-pending_asked :
      (answer : String) (question : Value) (state : State)
      → get "_pending_answer"
          (insert "_pending_question" question (insert "_pending_answer" (text answer) state))
        ≡ text answer
  get-pending_asked answer question state =
      ap (λ (o : Option Value). get_or o null)
        (lookup-insert "_pending_question" "_pending_answer" question
            (insert "_pending_answer" (text answer) state)
          ∙ lookup-insert "_pending_answer" "_pending_answer" (text answer) state)

  -- A reply to a stored run reaches the agent's next poll, and is taken away with it: the poll
  -- after that waits.
  pub input-reply :
      (run_id answer : String) (run : GraphRun) (s : Shared mongo)
      → Filed run_id run s
      → let s1 = (agent_reply mongo run_id answer s).1 in
        let (first, s2) = agent_input mongo run_id s1 in
        (first ≡ ok (answered (text answer))) × ((agent_input mongo run_id s2).0 ≡ ok waiting)
  input-reply run_id answer run s h =
      let asked = remove "_pending_question" run.state in
      let s1 = (agent_reply mongo run_id answer s).1 in
      let (first, filed, events) =
        input_answers run_id answer _ _ (reply_step run_id answer run s h)
          (get-pending_inserted answer asked) in
      (
        first,
        input_waits run_id _ _ filed
            (get-pending_removed (insert "_pending_answer" (text answer) asked))
            (ap (lookup run_id) events ∙ lookup-remove_self run_id s1.answer_events),
      )

  -- The run after an agent's poll that waited was ended by a reply: the answer is delivered, but
  -- stays in the stored run. So the agent's next question is answered at its first poll by the
  -- old answer, before any person has replied to it.
  stale_answer :
      (run_id answer question : String) (options : Option (List String)) (run : GraphRun)
      (s : Shared mongo)
      → Filed run_id run s
      → let s1 = (agent_reply mongo run_id answer s).1 in
        let (delivered, s2) = agent_input_end mongo true run_id s1 in
        let s3 = (agent_question mongo run_id question options s2).1 in
        (delivered ≡ ok answer) × ((agent_input mongo run_id s3).0 ≡ ok (answered (text answer)))
  unfolding agent_input_end
  stale_answer run_id answer question options run s h = (
    reply-delivered run_id answer run s h,
    (input_answers run_id answer _ _
        (question_step run_id question options _ _ (reply_step run_id answer run s h))
        (get-pending_asked answer (question_value question options)
          (remove "_pending_question" run.state))).0,
  )
