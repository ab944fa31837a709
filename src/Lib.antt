-- ===== src/Lib.antt =====
-- oops is a server for agents that work with language models and tools. This library models the
-- parts of its Go code that keep state, and proves what they promise.
--
-- Parts and how they interact:
-- - A session (internal/agent/runtime/session) is a tree of entries; a conversation is the path
--   from an entry to the root. The harness of the runtime appends the messages of a run to it,
--   and reads the messages for the model from it.
-- - An agent (internal/agent/core) runs a conversation. It takes messages from its queues, and
--   its loop asks the model, calls tools and sends events that change its state.
-- - Compaction (internal/agent/runtime/compaction) chooses the part of a session's path that is
--   summarised, and the entry from which the rest is kept.
-- - A run (internal/api/run_manager.go) passes the events of an agent on to the subscribers of
--   the HTTP API, with replay; the manager admits runs.
-- - A log hub (internal/loghub) keeps the newest lines of a log and passes new ones on.
--
-- Files:
-- - Prelude: tests, lists, maps and results that the other files share.
-- - Ai/Types, Ai/Validate: internal/agent/ai/types.go, content.go and message.go. `Stdlib`
--   stands for the calls of Go's standard library.
-- - Session/Sequence: message_sequence.go; Grammar is the independent description, Scanning,
--   Exact, Complete and Decides compare the two.
-- - Session/Entry, Tree, Append, Context, Load, Fork: types.go, session.go, messages.go and
--   safeBoundaryLocked of navigation.go. A Go method with a `Locked` suffix or lower case name
--   keeps its name in snake case.
-- - Session/Tree/Walk, Tree/Chain, Append/Ids, Valid and below: the proofs on sessions.
-- - Core/Queue, Core/Agent: queue.go, agent.go, agent_state.go; Queue/Fifo, Agent/Safety and
--   Agent/Running are the proofs.
-- - Core/Loop: agent_loop.go; Core/Loop/Types, Response and Tools: agent_assistant.go,
--   agent_errors.go, agent_tools.go and tool_missing.go. Effects is what a call of the loop is:
--   it changes the world outside, sends events and returns a value or an error. What a stream
--   gives is settled when it is opened. Laws is what the proofs ask of the callbacks; Journal,
--   Answers, Hooks, Missing, Turns, Whole and Runs are the proofs.
-- - Session/Navigate: navigation.go; Session/Summary, Session/Details: summary.go. `Json` stands
--   for encoding/json and sort. Navigate/Nearest, Navigate/Target, Summary/Branches,
--   Summary/Kept and Details/Parts are the proofs.
-- - Compaction/Usage, Cut, Path, Prepare, Files: internal/agent/runtime/compaction/compaction.go
--   and utils.go; Compaction/Branch: branch_summarization.go. Ai/Estimate: the token estimates
--   of internal/agent/ai. Cut/Loops, Cut/Bounds, Path/Agrees, Prepare/Range, Prepare/Keeps,
--   Files/Lists and Branch/Budget are the proofs.
-- - Core/Registry: tool_registry.go; Registry/Names is the proof.
-- - Run/Stream, Run/Manager: run_manager.go; Stream/Retain, Stream/Live, Live/Bounded and
--   Manager/Admission are the proofs.
-- - Loghub: internal/loghub/hub.go; Loghub/Ring and Loghub/Bounds are the proofs.
-- - Examples below each part: concrete values on which definitions are run and theorems applied.
--
-- Conventions: a method that holds a mutex is one step. Go's `int` is a natural number, and
-- overflow of a 64-bit counter is left out. A Go map is an association list that is read by key;
-- where the code walks a map, the order is that of a list about which nothing is assumed, and
-- the subscribers of a run may change places between two calls. Clocks, UUIDs and slices filled
-- with zero values are arguments.
--
-- Fuel: `path_loop` has one round more than the map has entries, and every round but the last
-- sees another key; `boundary_loop` has two rounds more than the path has entries, one for each
-- of them, one for the empty id and one to spare; `generate_from` has the 100 rounds of the
-- code; `nearest_loop` and `active_loop` have one round more than there are entries, and `walk`
-- one for each call id. An index into a path counts from 0, and a loop down to a bound has the
-- number of indices left as its count. `loop` has one turn more than the limit, for the turn
-- that is over it and ends the run. All other loops are structural.
--
-- Not modelled: JSON and files (encoding, jsonl_storage.go, repository.go), listeners and
-- contexts, the runner of tools, the texts and calls of a compaction, the HTTP handlers, MCP,
-- Docker, Nodelet and the web client: they are input and output, or calls of other programs, or
-- left for later.
mod Prelude
pub mod Ai
pub mod Compaction
pub mod Core
pub mod Loghub
pub mod Run
pub mod Session
