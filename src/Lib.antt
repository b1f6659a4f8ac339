-- ===== src/Lib.antt =====
-- A model of the workflow backend of langgraph-backend: runs of YAML-defined workflows that are
-- streamed by LangGraph, paused for people and for agents, and stored in MongoDB.
--
-- A run (app/domain/models/graph_run.py, GraphRun.antt) is a document that the repository
-- (app/infrastructure/persistence/mongo.py, Mongo/Runs.antt) stores. A workflow is a list of steps
-- (Step.antt), from which YamlGraphRunner (app/infrastructure/orchestration/yaml_graph.py) builds
-- a graph: the keys of its state (Schema.antt: `_build_state_schema`) with their reducers
-- (Reducers.antt), its edges (Wiring.antt: `_build`), its routers (Router.antt:
-- `_make_router_fn`), the nodes (Node.antt, Structured.antt for `_llm_structured_node`,
-- Execute.antt for `_execute_node`, Spawn.antt for `_workflow_node`) and the guards round each of
-- them (Guards.antt: `_make_node` and the `_wrap_…` methods). `stream_graph_to_pause`
-- (Stream.antt, Stream/Failure.antt for its `except` branch, Stream/Settle.antt for what follows
-- the stream, Stream/Overlay.antt for `merge_out_of_band_state`, Stream/Whole.antt for the whole,
-- Stream/Notices.antt and its child for the message to Slack or to a webhook at its end) runs the graph and keeps
-- the stored run in step with it. The answers of people (app/api/routes/callbacks.py,
-- Approval.antt) and the calls of agents (app/api/routes/agent_callbacks.py, Agent.antt and its
-- children Output and Progress) claim, change and resume a run, and authenticated HTTP requests
-- start one (app/api/routes/webhooks.py, Webhook.antt, Webhook/Run.antt). Approval/Endpoints.antt
-- has the endpoints of the answers, Slack.antt and its children those that Slack calls: clicks of
-- buttons, and replies in a thread, whose answers Slack/Answers.antt parses and Slack/Resume.antt
-- takes to the run. What is sent to Slack and to webhooks is made by
-- app/infrastructure/notifications/webhook_notifier.py (Notify.antt, Notify/Request.antt,
-- Notify/Questions.antt). Auth.antt is the authentication of the requests whose paths are not
-- exempt (app/infrastructure/auth/auth_service.py, app/api/middleware/auth.py), Tracing.antt the
-- trace of a run's calls (app/infrastructure/tracing/callback_handler.py).
--
-- The routes of app/api/routes/workflows.py (Workflows/Routes.antt, Workflows/Restart.antt for
-- `retry_run` and `restart_from_step`, Workflows/Requests.antt for all of them as requests) start,
-- answer, end and restart runs; the tasks that they leave behind (Workflows/Tasks.antt) stream the
-- graph by `_stream_graph` (Workflows/Stream.antt, Workflows/Status.antt for `_langgraph_status`),
-- and Workflows/Display.antt is what they show of a run. Workflows/Definitions.antt has the routes
-- of the definitions (app/domain/models/workflow_definition.py, Definition.antt), which
-- app/infrastructure/persistence/workflow_backend.py stores (Definition/Backend.antt). When the
-- server starts, app/core/container.py recovers the incomplete runs (Recovery.antt,
-- Recovery/Startup.antt), watches the agents that runs wait for (Recovery/Watch.antt), registers
-- the jobs of cron steps (Recovery/Schedule.antt, with
-- app/infrastructure/triggers/cron_scheduler.py), runs them (Recovery/Cron.antt) and sweeps the
-- pods that are kept warm (Recovery/Sweep.antt, Mongo/WarmPods.antt).
--
-- A step of an agent is executed by `execute_agent_step` (app/steps/agent_executor.py,
-- Executor.antt): Executor/Mapping.antt for its input, Executor/Config.antt for the configuration
-- that the agent is sent, by the agent's definition (app/domain/models/agent_definition.py,
-- AgentDefinition.antt), Executor/Start.antt for the start of the agent, Executor/Poll.antt for
-- the loop that polls it, with the tasks of app/infrastructure/persistence/mongo.py
-- (Mongo/Tasks.antt), Executor/Gates.antt for the questions, Executor/Judge.antt for the answers
-- of the quality gate and of the recovery (app/services/agent_poller.py), Executor/Output.antt for
-- the output, and Executor/Whole.antt for the whole with `_agent_node`. The routes of
-- app/api/routes/agents.py keep the definitions of agents (AgentDefinition/Routes.antt), which
-- app/infrastructure/persistence/agent_backend.py stores (AgentDefinition/Backend.antt). The chat
-- assistant of app/infrastructure/orchestration/default_workflow.py (Assistant.antt,
-- Assistant/Workflows.antt, Assistant/Agents.antt) changes both kinds of definitions by its tools.
-- Examples.antt and its children apply the theorems to concrete runs.
--
-- Correspondence. A definition has the name of the function, method or variable that it models, in
-- snake case without the leading underscore; a component's own comment names its source. A Python
-- dict is an association list in insertion order (Base/Dict.antt), a JSON value a `Value`
-- (Value.antt). A function that changes the run object and stores it is a function of a `World`,
-- which has both; an exception is a constructor of the result. Code that a node or router shares
-- with the stream (the run object) is passed in the same way.
--
-- Parameters. MongoDB is the interface `Mongo.Collection`, whose laws are the documented behaviour
-- of the driver's calls; Mongo/Memory.antt fills it. LangGraph is a list of events and a snapshot
-- for each input, so its scheduling is arbitrary. Models, MCP tools, OpenHands, HTTP, Python's
-- `eval`, `exec`, `str`, `==`, `json.loads`, `string.Formatter` and floats are functions or
-- records that the definitions take; so are the agent runtimes, whose answers and calls are
-- values. The clock is such an argument where its text is stored, or its seconds are compared, and
-- is left out elsewhere, with the timestamps.
--
-- Bounds. Two loops are not over a list. That of `_llm_structured_node` recurs on the iterations
-- that are left, which the source bounds by `max_iterations`. The loop that polls an agent recurs
-- on the answers of the agent, and is still waiting when they are used up. No fuel is added.
--
-- Assumptions. Steps have the types that the documentation of the class gives. The run object and
-- its repository are injected into the runner before a node runs, as `stream_graph_to_pause` does.
-- A step's id and an agent's URL are not empty. The graph's updates under `__interrupt__` are
-- lists, those of nodes dicts. The outputs that a poll gives are dicts, and a progress message is
-- a text. The fields of Slack's payloads have the types that Slack documents. A call of the
-- database does not raise, but for the duplicate key of an insertion. The text of an exception
-- that the program itself raises is shortened.
--
-- A message to Slack or to a webhook gives an answer or none; one that raises is left out. What the
-- streams of recovered runs do while other runs are recovered is a parameter. A call of an agent's
-- runtime is a request: what a spawn that raises leaves behind is not known.
--
-- Not modelled: when the notification of `agent_question` is sent, and the HTTP calls that send
-- notifications; the text search of runs; how agents are spawned and removed; network failures of
-- the identity provider; the checkpointer, a copy of LangGraph's; the leases of volumes; prompts;
-- the assistant's tools that show runs; the routes of models, chat and health, the services and the
-- reading of the configuration.
pub mod Base
pub mod Value
pub mod Reducers
pub mod GraphRun
pub mod Mongo
pub mod Texts
pub mod Step
pub mod Guards
pub mod Router
pub mod Wiring
pub mod Schema
pub mod Node
pub mod Structured
pub mod Execute
pub mod Spawn
pub mod Stream
pub mod Approval
pub mod Agent
pub mod Definition
pub mod Recovery
pub mod AgentDefinition
pub mod Executor
pub mod Workflows
pub mod Webhook
pub mod Auth
pub mod Tracing
pub mod Notify
pub mod Slack
pub mod Assistant
pub mod Examples
