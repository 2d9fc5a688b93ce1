-- ===== src/Lib.antt =====
-- dragonscale, an agent runtime in Go. A model of the parts that decide what an agent may do
-- and what it sees, with the theorems that make them correct.
--
-- The parts and how they interact. The agent runtime of internal/fantasy takes each step of a
-- run through a state machine, from the preparation of a step over the call of the model and
-- the validation and execution of tools to the check whether to stop. Every tool call goes
-- through the secure bus of pkg/security/securebus as a command of pkg/itr: the bus asks the
-- policy engine about the depth, URLs, paths and working directory, injects secrets from a
-- store, runs the executor, redacts what it returns and appends an event to an audit log. A
-- reply of the model may hold several calls, whose inputs refer to one another's results: the
-- tool runtimes run them in rounds, side by side where the tools are safe for that. A task
-- graph of pkg/itr is validated and then run in the waves that its topological order gives,
-- each node through the bus, with the results of earlier nodes written into its arguments. A
-- long context is held in the rope of pkg/rlm; the engine there takes its parts or matching
-- lines to sub-calls of the model, down to a depth. The records of the store are named by the
-- UUIDs of pkg/ids. The skills of pkg/skills, texts that the agent may read, form a graph by
-- their links, which a search goes through level by level. The LRU cache of pkg/cache serves
-- the packages that read often: entries with a time to live, a stale window and tags; a
-- smaller one in pkg/agent gives up its older half when it is full. The compressor of
-- pkg/memory/dag turns a conversation into a tree of summaries, and the token budget there
-- says how much of the model's window each part of a prompt may take.
--
-- Which file models what:
--   Fantasy/React/Machine      internal/fantasy/react_fsm.go, react_fsm_machine.go: states,
--                              triggers, the table of transitions, Fire with its log
--   Fantasy/React/Chain, Order, Liveness   proofs on the logs of runs
--   Fantasy/Retry              internal/fantasy/retry.go, IsRetryable of errors.go;
--                              Retry/Outcomes: proofs
--   Fantasy/Tools              executeSingleTool of internal/fantasy/tool_runtime_parallel.go, the
--                              types of tool.go and content.go; Tools/Parallel:
--                              ParallelToolRuntime; Batches: proofs
--   Fantasy/Tools/Json, Refs   the references in inputs of tool_dag.go and tool_runtime_dag.go;
--                              Refs/Replaced, Rewrites, Table,
--                              Needs, Ids: proofs
--   Fantasy/Tools/Graph        BuildToolDAG of tool_dag.go; Graph/Sound, Built: proofs
--   Fantasy/Tools/Rounds       DAGToolRuntime of tool_runtime_dag.go; the files below it: proofs
--   Security/Redact            pkg/security/redact.go, sanitizeAuditField of securebus/bus.go
--   Security/Extract           ExtractJSON of pkg/security/jsonextract.go; Extract/Parts: proofs
--   Security/Glob              globstarMatch of pkg/security/securebus/policy.go
--   Security/Policy/Engine     PolicyEngine of pkg/security/securebus/policy.go, the capability
--                              types of pkg/tools/base.go
--   Security/Policy/Network, Files   which URLs and paths are admitted
--   Security/Bus/Types         pkg/itr/commands.go, audit.go and the state of the bus
--   Security/Bus/Secrets       injectSecrets and injectArg of pkg/security/securebus/bus.go
--   Security/Bus/Dispatch      dispatch of bus.go, one function per stage
--   Security/Bus/Audit, Cleared, Secrets/Frame   proofs on dispatch and injection
--   Rlm/Rope                   pkg/rlm/rope.go; Slice, Partition, Runes, Lines, Grep: proofs
--   Rlm/Strategy, Fanout       pkg/rlm/strategy.go and pkg/rlm/fanout.go
--   Rlm/Engine                 pkg/rlm/engine.go; Engine/Ends: proofs
--   Itr/Dag/Resolver           topologicalOrder of pkg/itr/dag/resolver.go; Degrees, Waves,
--                              Ordering, Blocking: proofs
--   Itr/Dag/Plan               the data of pkg/itr/dag/executor.go
--   Itr/Dag/Executor           Execute of pkg/itr/dag/executor.go; Executor/Requests: the requests
--                              it makes of nodes, with resolveRefs of resolver.go, and join;
--                              States, Dataflow, Runs, Ends, Refs, Unique, Plans: proofs
--   Itr/Dag/Planner            validatePlan of pkg/itr/dag/planner.go; Ranks, States, Validation,
--                              Accepted, Blame, Runs: proofs
--   Itr/Dag/Router             Route of pkg/itr/dag/router.go, extractJSON of planner.go
--   Itr/Dag/Replan             ReplanLoop and ExecuteWithReplan of pkg/itr/dag/replan.go
--   Cache/Entries, Cache/Lru   pkg/cache/lru.go, the data and index and then the methods;
--                              Lru/Tags, Valid, Writes, History, Removals, Reads, Evict: proofs
--   Cache/Bounded              pkg/agent/bounded_cache.go; Bounded/Store: proofs
--   Memory/Budget              pkg/memory/dag/budget.go and the counts of node.go
--   Memory/Compress            pkg/memory/dag/compress.go; Compress/Ids, Tiles, Tree: proofs
--   Skills/Graph, Links        TraverseFrom, ParseWikilinks, mergeUnique of pkg/skills/graph.go;
--                              Graph/Walks, Visits, Levels, Reach, Links/Mentions: proofs
--   Skills/Build, Search       BuildGraph and SearchSkills of graph.go; Build/Sources,
--                              Search/Ranked: proofs
--   Ids/Uuid                   pkg/ids/codec.go, type.go and uuidv7.go; Text, Fresh: proofs
--   Prelude                    shared names, tests, lists, integers and texts
--   Tests                      runs at concrete inputs and the theorems there
--
-- How state and operations correspond. A struct is a record, and a method is a function from
-- the record to the record and what the method returns. Errors are data: a policy error is a
-- constructor for each message, and Go's (value, error) an option or a sum. Methods that hold
-- a mutex from their first line to their last are single steps, so that concurrent calls are
-- some sequence of them; Cache/Lru/History has these sequences as a relation. The loops over
-- slices and strings are structural recursion. Partition of the rope runs at most k rounds, as
-- its loop does, and the walk back to a rune boundary at most as many as the part is long.
-- Seven recursions are on fuel. topologicalOrder has one round more than there are nodes: each
-- wave takes at least one node away. The engine of pkg/rlm has 256 levels, as a depth is a
-- uint8. The loops of the compressor have a round for each message or chunk, which is enough
-- if their step is positive. The retry loop has one call more than there are retries. The loops
-- of the tool runtimes have a round for each call, as each round takes one or ends, and the
-- search of the skill graph has one for its name and each link, as a name is put in the queue
-- once and is a link. The goroutines of a wave of the executor are taken one after the other
-- in the wave's order, and read the results of their dependencies, which are in earlier waves;
-- those of a fan-out write at their own index, so their results stand in a fixed order.
--
-- Parameters. Code outside the repository is an argument: regular expressions (matching and
-- replacing, where replacing without a match changes nothing), net/url and path/filepath,
-- strings.ToLower, the engine of state machines (qmuntal/stateless) with its documented
-- behaviour, the encoder and decoder of JSON, the tokenizer, the readers of numbers and dates
-- of strconv and time, the URL guard with its lookups, and the clock, which is a number that a
-- call is given. So are the function that is retried, with its waits, the tool executor and
-- the secret store of the bus, the tools of the runtimes, the loader of skills, the planner
-- and executor of the replanning loop, the bus, joiner and expansion of the plan executor, and
-- the model and bus of the engine at each path of its calls, of which nothing is assumed. What
-- is written out of the standard library is strings.Split, strconv.Atoi, base64 encoding,
-- strings.Contains, strings.TrimSpace, hex.DecodeString, utf8.RuneStart and the doubly linked
-- list of the cache. Integers are unbounded, since the code's are lengths, counts and times
-- far below 2^63; the token sums of the executor, the engine and replanning wrap at 2^32, the
-- engine's depth at 2^8, and the delays of retries as an int64.
--
-- Not modelled: the goroutines and channels of the bus (dispatch is what one request runs),
-- the order of iteration over Go's maps (the cache's callbacks come in the model's order), the
-- texts of error messages, and the rest of the repository: the cancellation of a run through
-- its context, the planner's prompts and JSON decoding in pkg/itr/dag, the stores of
-- pkg/memory, the step loop of internal/fantasy/agent.go, model providers, storage, channels,
-- command line and generated code. These are I/O, glue, or not yet taken up.
pub mod Prelude
pub mod Fantasy
pub mod Security
pub mod Rlm
pub mod Cache
pub mod Itr
pub mod Memory
pub mod Ids
pub mod Skills
mod Tests
