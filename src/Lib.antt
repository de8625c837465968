-- ===== src/Lib.antt =====
-- The agent bridge and the client of soren: what a coding agent's plugin lets it do and reports, and
-- what the dashboard makes of it.
--
-- Parts
--   Bridge   .opencode/plugins/soren-bridge.ts, the plugin in every agent's process
--     Settings    its environment, and how it resolves and places paths
--     Contracts   loadContracts and contractForbidsProtected
--     Guard       tool.execute.before; Paths, Edits, Verbs and Commands hold the proofs
--     Regex       the regular expressions that the plugin tests texts with
--     Delivery    post with its retries, and truncate
--     Reasoning   the buffer of growing reasoning parts, its debounce timers and flushes
--     Turn        the scan of a session's messages at its end, the response and the stop gate
--     Hooks       chat.message, tool.execute.after and the handler of session.idle
--   Stores   src/frontend/src/stores: Layout (layoutStore.ts), Terminal (terminalSettingsStore.ts),
--            Activities (activityStore.ts), AgentEvents (agentEventStore.ts), Thoughts
--            (thoughtStore.ts) and Agents (agentStore.ts and sessionStore.ts)
--   Chat     messages: the cached pages and src/frontend/src/lib/notifications.ts; Collapse,
--            Thoughts and Tools are the pipeline of src/frontend/src/hooks/useMessageFeed.ts, and Timeline
--            is src/frontend/src/components/chat/InterleavedTimeline.tsx
--   Socket   src/frontend/src/hooks/useWebSocket.ts: the connection and its back-off; Messages is the
--            handler of what the server sends, over the stores and the cached pages
--   WebTerminal  src/frontend/src/components/terminal/WebTerminal.tsx: Handlers has its handlers and
--            events, Histories and Refinement what they keep, Sending what goes out
--   Input    src/frontend/src/components/chat/ChatInput.tsx: Editing follows what is typed, Keys what is
--            pressed, and Steps is all that can happen; the others hold the proofs
--   Summaries  src/frontend/src/lib/toolSummary.ts: Details has labels, details and outputs
--   TaskGraph  src/frontend/src/lib/dag-layout.ts: Rounds, Relaxing, Depths and Deeper are about its loop,
--            Placement and Overlap about the places
--   Navigation  src/frontend/src/lib/navigation.ts
--   Shortcuts  src/frontend/src/hooks/useKeyboardShortcuts.ts, over the routes and the sidebar's order
--   Tasks    src/frontend/src/components/tasks/task-utils.ts
--   Sidebar  src/frontend/src/components/sidebar/sidebar-utils.ts
--   Base     helpers: Boolean tests, lists, maps in insertion order, texts and stable sorting
--
-- How the parts interact. The plugin's guard asks the contracts; its hooks send what the turn and the
-- reasoning buffer yield through delivery to the server. The server forwards events to the client's
-- socket, whose handler changes the stores and the cached pages; the feed reads both.
--
-- How code becomes definitions. A function keeps its name in antt's spelling, and a handler is a
-- function from a state to a state, with the requests and files that it writes as values. A thrown
-- error of the guard is the value `blocked`. A browser's or a bus's callbacks are events of a step
-- function, and a history is a list of events. Text is the list of its UTF-16 code units. Code that
-- is not in the repository is an argument: JSON's parser, the file system, the network's replies,
-- the clock, dates, lower case and collation; a collation is assumed to be a total preorder where a
-- statement says so. Sizes of panels are of any ordered number type.
--
-- Bounds and fuel. The loop of post runs on the number of attempts that are left, which is exact; the
-- loop that collapses messages runs on their number, which suffices since every round takes one.
-- The loop of the graph's layout runs on as many rounds as there are nodes, which is proved to be
-- enough. All other loops recurse on a list. JavaScript's counters here stay far below 2 ^ 53 and are natural
-- numbers.
--
-- Not modelled: the Python server, the orchestrator's shell scripts and tools, other React components,
-- requests' URLs and bodies, spawned scripts, and records' fields that no modelled function reads.
-- While the handler of session.idle waits, only events of the reasoning buffer come in between.
-- A packet of the socket is taken to carry the data of its event. Not a number (NaN) as a time or a
-- size is left out.
pub mod Base
pub mod Bridge
pub mod Stores
pub mod Chat
pub mod Socket
pub mod Tasks
pub mod Sidebar
pub mod WebTerminal
pub mod Input
pub mod TaskGraph
pub mod Summaries
pub mod Navigation
pub mod Shortcuts
