-- ===== src/Lib.antt =====
-- dsh-link: a node that carries messages, files and capability calls between machines that run DSH,
-- and the bridge plugin that wakes DSH sessions when messages arrive. This library models the parts
-- that decide: who is woken, into which session, how often, and which command a bridge runs.
--
-- The parts, and where they stand:
--   Bridge/Topics: integrations/dsh-link-bridge/lib/topics.js. The pool of sessions, one per topic: the
--     policy (Policy), subjects (Subject), keys and labels (Keys), `recordUse` (Pool), `planSession`
--     (Plan), `sweepPool` and `poolSummary` (Sweep).
--   Bridge/Routes: integrations/dsh-link-bridge/lib/routes.js. The table of asking threads:
--     `registerRoute` and `routeFor` (Routes), sweeps and summaries (Routes/Sweeping).
--   Bridge/Outbound: what a tool call of a session says about the message that it sent.
--   Bridge/Wake: integrations/dsh-link-bridge/lib/index.js, the watermark order and the wake guard.
--   Bridge/State: integrations/dsh-link-bridge/lib/index.js, what a restart keeps of the state.
--   Bridge/Sessions, Bridge/Tick: integrations/dsh-link-bridge/lib/index.js. The sessions that the bridge
--     opens and archives, and `tick` as a whole.
--   Bridge/Commands: integrations/dsh-link-bridge/lib/commands.js. The worker that claims, runs and
--     reports capability commands.
--   Node/Names, Node/Readers, Node/Config: `slugName`, `normalizeRoot`, `findPeer` and `publicInfo` of
--     src/config.mjs; `toInt` and `flagBool` of src/util.mjs.
--   Node/Capabilities, Node/Queue: src/capabilities.mjs. Who may ask for what, and the command queue
--     that the bridges drain, with the call that waits for a result (Queue/Waiting) and
--     the life that a command has in the queue (Queue/Lifecycle).
--   Node/Globs, Node/Paths, Node/Roots, Node/Resolve: src/util.mjs and src/fsroot.mjs. The shared roots,
--     which paths below them are accepted, which the deny list blocks, and `resolve`, which turns a path
--     below a root into a path of the machine.
--   Node/Ports: src/tunnel.mjs. The visitor ports, `ensureVisitorPorts` (Free) and the text of the
--     configuration of frp (Frp). Node/Ids: ids and clipped texts of src/util.mjs.
--   Node/Store: src/store.mjs. The messages, what is imported, the marks of reading that two
--     processes write (Marks, Reading), the files of records and the counts (Jsonl).
--   Node/Delivery: src/ops.mjs. Sending, retrying, dropping, accepting, reading and syncing messages.
--   Node/Views: what src/ops.mjs shows of DSH, and `normalizeDshViewConfig` of src/dshview.mjs (Config).
--   Node/Auth: the tokens of src/config.mjs, and `authorize` with its throttle of src/server.mjs.
--   Node/Server: src/server.mjs. The routes, the way from a request to its handler, bodies, ranges, and
--     the handlers of the messages, of the bridge and of the calls (Messages, Bridge, Calls).
--   Node/Pairing: src/pairing.mjs. Invites, the peers that are made of them (Entry), and the items of
--     the profile of DSH (Patch).
--   Node/Mcp: src/mcp.mjs, JSON-RPC over the tools. Node/Reload: src/reload.mjs, the watcher of the
--     configuration file.
--   Node/Arguments: `parseArgs` of src/util.mjs. Node/Presence: `createBridgePresence` of
--     src/capabilities.mjs.
--   Common: lists, texts, dictionaries with the order of insertion, integers, and the values that a
--     configuration or a message can hold (Common/Values).
--
-- How they interact: `tick` of the bridge reads messages newer than its watermark, sweeps the pool and
-- the routes, asks the guard, and takes the session from a route or else from the plan for the topic;
-- the heartbeat saves the state that a restart reads. The queue of the node holds the commands that
-- the worker of a bridge claims and whose results it posts. A request goes through the throttle, the
-- authorisation and the table of the routes to a handler; the handlers call the operations, which work
-- on the store, the queue and the calls of other nodes. The tokens that let a caller in are made by
-- pairing; the watcher of the configuration file replaces the configuration that all of them read.
--
-- State is passed and returned: an object that the source changes in place is an argument and a
-- result. A value that may have any type in the source is a `Value`; `none` stands for a value of
-- the wrong shape, as each file says. An object that is used as a map has no inherited properties
-- here. Texts are lists of UTF-16 code units. Numbers are integers: what fractions do is not
-- modelled. Times are milliseconds; the clock is an argument, read once in a call.
--
-- Bounds and fuel: `normalizeSubject` strips at most 16 markers, as the loop of the source does, so no
-- fuel is added; the digits of a number are written with the number itself as fuel, which is more
-- than it has digits; the search for a visitor port takes fuel, and its theorem says how much is
-- enough, as that of `ensureVisitorPorts` does with 65,536; the call that waits takes one unit of fuel
-- for a millisecond of its limit, since every pause takes at least one; the search of `resolve` for what
-- exists takes the length of the path, since a parent is shorter; every other loop runs over a list.
--
-- Parameters: the DSH Host is a function that answers a call by the log of all calls so far; what the
-- node answers to a tick is an argument of `tick`; the network of the worker is a function of the
-- requests sent so far; its handlers are a dictionary of functions; the order of ids
-- (`localeCompare`) is a parameter of the queue and of the store, of which nothing is assumed; what
-- the JSON of a tool result holds, and `path.resolve`, are parameters; the ids of queued commands and
-- the random digits of `newId` are arguments. So are: the calls of other nodes, as a function of a state
-- that they change; SHA-256; `decodeURIComponent`; the parser and the printer of JSON; the paths and the
-- files of the platform; the view of the DSH installation; the tools of MCP; whether a port is free;
-- when the process is closed, and whether this node has a command channel.
--
-- Not modelled: the HTTP client, the tools of MCP, the commands of the command line, the reading of
-- the session logs of DSH, the doctor, the DSH operations of the bridge, attachments and the transfer of
-- files, and the processes of the tunnels, all of which are mostly input and output; `normalizeConfig`;
-- the handlers of the other routes; logs;
-- the file system under the queue and the store, where one call runs at a time, though of the calls of
-- the queue only `enqueue` and `claim` are under its lock; the text of the prompts.
pub mod Common
pub mod Node
pub mod Bridge
