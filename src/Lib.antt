-- ===== src/Lib.antt =====
-- DevKuong Memories, a shared memory service for AI coding tools: agents on several machines store
-- facts, decisions and lessons on one server, and search them. The server (internal/api) authenticates
-- a key, calls the store (internal/store) on PostgreSQL, redacts secrets before it writes
-- (internal/redact), names rows by time-ordered identifiers (internal/ulid), and tells open dashboards
-- of what was written (internal/api/events.go). A client (internal/client) that cannot reach the
-- server queues its writes in a file and pushes them later under the same identifiers. On a schedule
-- (internal/cron) a worker (internal/consolidate) has a language model turn ended sessions into
-- summaries, facts and lessons. The server reads its configuration once (internal/config), draws a
-- graph of a project (internal/store/graph.go), and `dkm connect` enters the client into the files of
-- coding agents (internal/connect).
--
-- Files and what they model:
--   Base       shared names: tests on numbers, lists, text as a list of bytes, results with errors.
--   Ulid       internal/ulid/ulid.go: `encode`, `validate`, `time`, and `new_at` on the state `lastMS`
--              and `lastRand` (Generator). Arrays of bytes are lists; uint64 wraps at 2 ^ 64.
--   Redact     internal/redact/redact.go: `collect`, `apply`, `scan`, `clean` and the line index.
--   Store      internal/store/memories.go, models.go and store.go. Store/Model has the rows and callers,
--              Store/Create `CreateMemory`, Store/Read the queries, Store/Write the updates. The table
--              is a list of rows; the constraints come from internal/store/migrations/0001_init.sql.
--              Store/Sync has `Changes`, Store/Recency the order of its rows, Store/Pages
--              its pages; Store/Steps makes one step relation of the calls.
--   Auth       internal/store/auth.go: `split_key`, `verify_key`, the cache of verified keys,
--              `authenticate` and `revoke_key`; Auth/Accounts has teams, users and the first start.
--   Middleware internal/api/middleware.go: what a request needs for a handler to run, and the limiter.
--   Events     internal/api/events.go: the hub; each send of `publish` is a step of its own.
--   Client     internal/client/mirror.go and client.go: the write queue and `Push` (Client/Push); Client/Cache has the
--              merge of changes into the local copy (`Apply`).
--   Project    internal/client/project.go: `normalise_remote`.
--   Cron       internal/cron/cron.go. Cron/Schedule has `parse`, Cron/Calendar the days and months that
--              Go's `time` counts in, Cron/Next the search for the next firing time.
--   Consolidate  internal/consolidate/worker.go and llm.go. Consolidate/Backend is the interface to the
--              store, the model and the context, whose calls may each fail. Retry has
--              `complete_with_retry`, Json and Decode the reading of a reply, Prompt the texts, Drain the
--              loop over batches, Tier1 the session summaries, Tier2 the fact extraction, Tier3 the
--              lessons, Report `run_now`, Guard the jobs and the passes of
--              `RunNow` that are under way, Upkeep the maintenance.
--   Sessions   internal/store/sessions.go and consolidation.go: sessions, observations and run records.
--              Sessions/Work has the worker's calls and makes the store's half of the backend of them.
--   Config     internal/config/config.go and strict.go. Config/Model has the configuration and its
--              defaults, Validate its checks, Unknown the keys of a file against the structs, Distance
--              the suggestion for an unknown key, Environment the overrides, Load how they follow each
--              other. The structs of Go are trees of types and of values, as reflection shows them.
--   Graph      internal/store/graph.go. Graph/Walk has `bfs`, Graph/Query `GetGraph` over the rows of
--              the tables `graph_nodes` and `graph_edges`.
--   Connect    internal/connect/writers.go and agents.go. Connect/Json has documents and `mergeJSON`,
--              Hooks the hooks of Claude Code, Repeat `writeClaudeHooks`, Codex the section of
--              `config.toml`, with Lines, Trims, Headers and Section about its text, Agents `Connect`, `Disconnect` and `IsConnected`. A disk is what each path
--              holds.
--
-- A call of the store is one atomic step, and its time is an argument. Most loops are structural
-- recursion. On fuel are: the search of Cron/Next, with a round for each minute up to its limit
-- and one more, since every round moves at least a minute ahead; the loop over a range of a cron
-- field, with a round for each number of the range and one more, since a step is at least 1; the
-- walk over the months up to a day, with a round for each day, since a month has a day; and the
-- digits of a number, at most 20. An attempt of a completion and a batch of a drain are counted
-- down as in the code (`maxAttempts`, `maxDrainBatches`), and so is a hop of `bfs`.
--
-- Parameters stand for what is not in the repository: the matches of the regular expressions,
-- SHA-256, argon2id, base64, JSON, YAML, the splitting of addresses and URLs, floating-point
-- numbers, the parsing of durations, the form of dates, random bytes, arithmetic on the column
-- `strength`, the language model and the embedder, in Store the rows of `sessions`, and the order in
-- which a Go map is walked. Text is ASCII where the code folds case or trims blanks. Failures of the
-- database are left out in Store, Auth, Sessions and Graph, while in Consolidate every call may fail;
-- failures of the disk are left out, and so are a line of the queue above 8 MB and a client without a
-- mirror. Texts are ordered bytewise, also in SQL, where the database's collation decides; for the
-- ids that the server makes, all of one length, digits and capitals, these agree. Cron is in UTC. An error of the configuration has its key, without the advice in its text.
--
-- Not modelled: the HTTP handlers, logging, search and its ranking, the tickers and timers that
-- start a job, the HTTP requests to language models, the configuration of a client, MCP, importers,
-- the detection of installed agents, the command line; of the store, the listings for administration,
-- the counts for the dashboard and the SQL that derives a graph from memories and observations; of
-- the client, the search of the local copy, which computes in floating point, and the requests.
pub mod Base
pub mod Ulid
pub mod Redact
pub mod Store
pub mod Auth
pub mod Middleware
pub mod Client
pub mod Events
pub mod Cron
pub mod Consolidate
pub mod Sessions
pub mod Project
pub mod Config
pub mod Graph
pub mod Connect
