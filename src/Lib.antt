-- ===== src/Lib.antt =====
-- sclaw is an assistant's server: messages from chat channels reach an agent, which reasons in
-- rounds with a language model and runs tools for it. This library models the parts of it that
-- decide: the locks that serialize a session (Router), the agent's loop (Agent), the tools and who
-- may run them (Tool), the rate limits (Security) and the failover between providers (Provider).
-- The router takes a session's lane before it runs the loop. The loop asks a provider, which the
-- chain chooses, and hands the calls of the reply to the registry of tools, which charges the rate
-- limit, resolves the policy and asks the user where the policy says so. Hooks (Hook) run around a
-- message; its session stands in the store (Router); the context engine (Context) fits a history to
-- the model's window; a long answer is split for its channel (Channel, Message). Sub-agents
-- (Subagent) run further loops, and the parts start and stop as modules (Core).
--
-- Prelude            lists, maps and numbers that the parts share: a Go map is an association list
--                    without a key twice, an int a number of ℕ or of ℤ where it may be negative.
-- Provider.Errors, Provider.Types   internal/provider/errors.go, types.go: an error is the list of
--                    the sentinels that it wraps, which is what errors.Is reads.
-- Provider.Health    internal/provider/health.go: healthTracker is a record, each method a function
--                    of the clock; the state-change callback is the notice returned. The backoff
--                    doubles on an int64, with its wrap-around written out. Backoff and
--                    Availability hold the proofs.
-- Provider.Chain     internal/provider/chain.go: NewChain, candidates, Complete, Stream, wrapStream,
--                    GetProvider, HealthReport and a tick of runHealthChecks; Chain.Auth is
--                    AuthProfile. A provider's answers, the clock and the context are the argument
--                    `world`, one attempt for each entry. Candidates, Failover, Answers, Keeps and
--                    Probes hold the proofs.
-- Security.RateLimit internal/security/ratelimit.go: RateLimiter and its buckets; Allow, AllowN,
--                    RemoveSession. Eviction, Window, Keys and Sessions hold the proofs.
-- Router.Lane        internal/router/lane.go: LaneLock as a step relation. A step is what one
--                    goroutine does between two points where another may run, and `Pc` says where
--                    it stands; lanes are on a heap, since a goroutine keeps its pointer while the
--                    map changes. Measures, Invariant, Fresh, Cleaning, Sweeping, Steps, Exclusion and
--                    Separation hold the proofs.
-- Agent.Guards, Agent.Executor, Agent.Loop   internal/agent/guards.go, executor.go, loop.go,
--                    types.go, config.go: the loop detector, the token tracker, the executor and
--                    Run. The model, the context, the tools and encoding/json are arguments.
--                    Turns, Bounds, Repeats and Transcript hold the proofs.
-- Tool.Policy        internal/tool/policy.go, elevated.go; Policy.Lists and Policy.Resolution hold the
--                    proofs.
-- Tool.Registry      internal/tool/registry.go, state.go: Register, Get, Execute and the approval
--                    that Execute begins; Registry.Gate and Registry.Audit hold the proofs.
-- Router.Sessions    internal/router/store.go, session.go, pruning.go: the session store and TryPrune,
--                    which also cleans the lanes of Router.Lane; what other goroutines do between its
--                    steps is an argument. Sessions.Bounds and Sessions.Pruning hold the proofs.
-- Router.GroupPolicy internal/router/policy.go: which messages of a group are processed.
-- Message            pkg/message: the outbound message and its text.
-- Channel.Chunking   internal/channel/chunking.go: SplitMessage and what it calls, on bytes. Force,
--                    Runes, Lines and Messages hold the proofs.
-- Channel.AllowList, Channel.Dispatcher   internal/channel/allowlist.go, dispatcher.go: who may use
--                    a channel, and the sending of messages to the channel of their name.
-- Context            internal/context: budget.go, compactor.go, assembler.go, config.go. Trimming and
--                    Assembly hold the proofs.
-- Subagent           internal/subagent/manager.go, agent.go: Manager as a step relation of its callers
--                    and the runs of its agents, split where a mutex is given up. Counting,
--                    Draining, Isolation, Owners, Starting and Finality hold the proofs.
-- Core               internal/core/core.go: the life cycle of the modules, with a log of the calls.
--                    Lifecycle holds the proofs. Core.Registry is internal/core/registry.go, module.go:
--                    the registered modules and their ids.
-- Hook               internal/hook/pipeline.go, hook.go: registration and the three runs. The
--                    methods of the hooks are an argument, and so is their identity. Priorities,
--                    Order and Runs hold the proofs.
-- Multiagent         internal/multiagent/registry.go: the routing of messages to agents; Routing holds
--                    the proofs.
-- Memory             internal/memory/store_mem.go, history_mem.go, store.go: the stores in memory;
--                    Index holds the proofs.
-- Examples           runs on concrete inputs, and each theorem at one.
--
-- Loops and bounds: every function recurs on its data, and Run on the iterations that are left, so
-- no fuel is needed; forceSplit alone has fuel, the length of its line, and each round takes a
-- byte. Counters (failures, references, tokens, ranks of hooks) are unbounded numbers, since no run
-- comes near 2^63 of them; times are nanoseconds, and a time before 0 reads as 0. The backoff is the one quantity
-- that grows by doubling: its wrap is modelled, and where a statement needs that it does not
-- happen, IsSane asks for a cap below 2^62 ns, which is 146 years. The differences of priorities
-- wrap too, and the order of the hooks asks for priorities from -2^62 to 2^62 - 1.
--
-- Not modelled: logging and the texts of errors and audit records; durations in responses;
-- RunStream and the forwarding of stream events; two requests on one chain at the same time; the
-- goroutine that starts the probes; the metadata of sessions; the estimator by characters, a
-- floating-point ratio; a tool whose outcome differs between two identical calls of one run. The
-- router's pipeline and approvals, the base of the channels, the lists of modules by namespace, the extraction and injection of memories, the gateway,
-- configuration and the adapters to services are outside the library.
pub mod Prelude
pub mod Provider
pub mod Security
pub mod Router
pub mod Agent
pub mod Tool
pub mod Message
pub mod Channel
pub mod Subagent
pub mod Context
pub mod Core
pub mod Hook
pub mod Multiagent
pub mod Memory
pub mod Examples
