-- ===== src/Lib.antt =====
-- Temporal Agent: a server on which people work with agents in shared sessions, over Temporal workflows.
--
-- A message of a session is stored, then delivered to each agent that it addresses. A participant workflow
-- (workflow/participant.go) answers an agent's messages one at a time: it checks the turn, runs it as a
-- workflow of its own, writes its end under a key (store/message.go), and hands the message on. What a turn
-- reads of the conversation follows from those keys, and conversation/order.go puts the messages in the order
-- that models and pages read. A turn (workflow/agent.go) calls the model, then the tools that it asks for,
-- until it answers; a call may run in the background (workflow/background.go), and its end wakes the
-- participant. What the model reads of the messages is made of them by conversation/convert.go. The server
-- follows the turns by events that its hub passes on (sse/hub.go) and by a cache of what Temporal knows
-- (session/status.go). What a user may do is decided by rules (access/access.go), what tools a process has by a
-- registry (tool/registry.go), and how often a password may be guessed by counts (auth/throttle.go).
--
-- The files, with the code that each is about:
--   Common      names of the libraries, Boolean tests, byte strings (Text), dictionaries, a stable sort
--   Access      access/access.go: Rule, Matches, Holds, Allowed, Removes
--   Store       store/message.go: the keys of turns (Keys), TurnScope with TurnReads and TurnEndIDs (Reads), and the
--               stored messages (Messages)
--   Conversation  conversation/order.go: Order, with `group` for its first loop, `place` and `emit` for the others;
--               conversation/convert.go: Convert, with `see_all` for its first loop, `convert_message` for the second
--               (Convert), the texts that show other agents' turns and tasks' ends (Texts), and what is private to a reader,
--               said of the messages alone (Convert/Secrets)
--   Sse         sse/hub.go: the hub as a record (topics, and the subscribers by number), Publish, Subscribe, Unsubscribe
--   Workflow    workflow/participant.go: the IDs (Ids), the data (Messages), the workflow (Participant, with its
--               children Relay, Turn and Answer): runTurn is `run_turn`, answer is `answer`, the loop is `run`;
--               workflow/agent.go: AgentWorkflow is `agent_workflow`, its loop `react` (Agent/Loop), a tool's call
--               `dispatch` (Agent/Dispatch, its input in Agent/Tools), its result `collect_one` (Agent/Collect,
--               the texts in Agent/Results), the outputs in Agent/Outputs;
--               workflow/agent_llm.go: startLLMRoute (Agent/Choice), llmRoute.call with its loop `attempts`
--               (Agent/Route);
--               workflow/background.go: a task's start (Agent/Background), BackgroundTaskWorkflow (Task)
--   Session     session/status.go: statusCache (StatusCache), each of its critical sections a step;
--               session/turns.go: what the turn events tell of the participants (Turns)
--   Tool        tool/registry.go: Registry, with SyncSource as `sync_source` and Retain as `retain`
--   Auth        auth/throttle.go: Throttle with LoginLimits (Throttle), ClientAddrs (Clients)
--
-- State is passed explicitly: an operation takes the state before and returns the state after, with its result.
-- A call under a lock is one step. Times are numbers of nanoseconds, and a call is given the time it reads.
-- Counters that the code keeps in 64 bits wrap around as they do there (the hub's sequence, the cache's
-- generation). Strings are their bytes. IDs of stored messages are natural numbers, where 0 stands for those
-- that are 0 or below.
--
-- The participant workflow runs in an environment: functions of the effects asked for so far that say what an
-- activity or the turn's workflow returns, and which signals arrive meanwhile. A statement for every environment
-- holds for every behaviour of Temporal, of the store and of the members. Its loop takes a bound on its passes; a
-- number of passes that is enough exists because a long history makes it continue as a new run.
--
-- The turn and the background task run in environments of the same kind. A turn's loop takes 50 iterations, and
-- a step on a machine 6 attempts, as the code bounds them. The answer of a model and its tools' results enter
-- the turn together, since nothing reads it between them.
--
-- Parameters stand for libraries: encoding/json, path.Match, net/netip's addresses, SHA-256 and the printing of
-- a tool's settings, the folding of an e-mail address, the folding and trimming of texts, a time's print. So
-- does activity.TaskSummary. The results hold for all of their values, but what a hypothesis asks of
-- encoding/json.
--
-- Left out: the SQL store, HTTP handlers and pages, the providers of models, the tools' own work, the coding
-- program's runner, machines and their tunnels, the gateway and the Telegram channel, which are input and
-- output; logs; the hub's observers; and the options and retries of activities, which Temporal applies. Of a
-- call of the model, `call_llm` and `call_llm_on_machine` name the attempts that its options allow.
pub mod Common
pub mod Access
pub mod Store
pub mod Conversation
pub mod Sse
pub mod Auth
pub mod Workflow
pub mod Tool
pub mod Session
