-- ===== src/Examples/Agents.antt =====
-- An agent's questions, output and messages.
use langgraph_backend.Base.{◌≡◌, refl, some, [], ◌∷◌}
use langgraph_backend.Base.Dict.{lookup}
use langgraph_backend.Value.{text, State}
use langgraph_backend.GraphRun.{GraphRun, Status}
use langgraph_backend.Mongo.Memory.{memory}
use langgraph_backend.Approval.{ok}
use langgraph_backend.Agent.{Shared, agent_reply, agent_input, answered, waiting}
use langgraph_backend.Agent.Dialogue.{input-reply}
use langgraph_backend.Examples.{db, fresh_run, holding}

-- The run while its agent works on the draft.
abbrev agent_run : GraphRun
agent_run = record fresh_run { status = Status.waiting_agent; current_step = some "draft" }

abbrev shared : Shared db
shared = record { runs = holding agent_run; answer_events = []; answers = []; questions = [] }

input-reply_example :
    let s1 = (agent_reply db "run-1" "yes" shared).1 in
    let (first, s2) = agent_input db "run-1" s1 in
    (first ≡ ok (answered (text "yes"))) × ((agent_input db "run-1" s2).0 ≡ ok waiting)
unfolding memory holding lookup
input-reply_example = input-reply db "run-1" "yes" agent_run shared (refl, refl)

abbrev output : State
output = ("summary", text "done") ∷ []
