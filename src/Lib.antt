-- ===== src/Lib.antt =====
-- A model of the vLLM orchestrator: a server that loads language models on demand, puts idle ones to
-- sleep, evicts them for others, and routes requests to them.
--
-- The parts and the files that model them:
-- - Base: numbers, `int64` with its wrap-around, lists, results.
-- - Config (config.go): the configuration's data; Config/Validate follows `validateConfig` check by
--   check, with the file system as a parameter; Config/Valid says what a valid configuration is.
-- - Memory (memory.go): groups and free memory, `initMemory`, `refreshMemory`; Memory/Parse reads the
--   bytes that nvidia-smi and /proc/meminfo print.
-- - Process (process.go): the calls to a running server, over what the server answers;
--   Process/Env the environments of `buildEnv` and `buildEnvLlamaCpp`, Process/Command the commands
--   that are launched, Process/Output `drainAndMeasure` over the lines that a server prints.
-- - Orchestrator (state.go): the types of the runtime; Orchestrator/Monad how a goroutine runs;
--   Orchestrator/Transitions `tickTTL`, `transitionToSleep`, `wakeAndActivate`, `killAndUnload`, the
--   crash handler and the drains of the queue; Orchestrator/Invariant what every goroutine keeps, for
--   which the files named Kept go through its actions.
-- - Scheduler (scheduler.go): candidates, `pickGroup`, `waitVRAMStable`; Scheduler/Rules
--   `freeMemoryRules` and `freeCPURam`; Scheduler/Assign `assignGroup`.
-- - Requests (state.go, proxy.go): `handleRequest`, `waitForActive`, `watchHealth`, `loadModel` and
--   `routeRequest`; Requests/Setup `newOrchestrator`, `resolve`, `pick`, `sanitizeModelName`,
--   Requests/Resolve what a name resolves to, and Requests/Members which entries are made.
-- - Proxy (proxy.go): `serveHTTP` and its handlers, the list of models, the WebSocket requests;
--   Proxy/Body finds and replaces the field "model" of a body; Proxy/Quoting has the bytes of strings
--   and Go's %q.
-- - Startup (main.go): the start; Startup/Loops the TTL loop, the periodic refresh and the shutdown;
--   Startup/Run the goroutines of the whole program.
-- - Samples and Examples: small inputs, tests, and each theorem at a concrete input.
--
-- State. The heap of `modelEntry` and `replicaSet` objects is a pair of functions from addresses; a
-- process is the number of its launch, nil is `none`, and so is the index -1. A handler is a function
-- from a `World` and the state to an outcome and the new state. At each lock of a mutex that another
-- goroutine may have held since the last one, and at each wait for a process or a command, the field
-- `others` of the world may change the state at will; `alone` is the world in which it does not. A
-- nil process that is used and an index out of range are faults, for the panics of the code, and a
-- wait that has not ended is one too. What nvidia-smi, the servers, the clock and the clients answer
-- are fields of the world, read at a moment. `trace` lists what was done to requests and processes.
--
-- Bounds. The search for the field "model" takes as many rounds as the body has bytes, and each
-- round reads one at least. `waitForActive` takes a number of polls; `waitVRAMStable` twenty rounds
-- of half a second, which reach its deadline of ten seconds; `strconv.Itoa` 19 digits, which hold
-- every `int`; the TTL loop and the refresh loop a number of ticks.
--
-- Integers of 64 bits wrap as in Go; durations are nanoseconds, and `time.Since` saturates. A
-- float64 of the configuration is its bit pattern. The share of 0.85 of a group's VRAM, which the code
-- computes with float64, is a field of the world.
--
-- Parameters: the YAML decoder, the decoder of encoding/json with its documented offsets, the regular
-- expressions and the float parsing of `drainAndMeasure`, the formatting of floats, the file system,
-- and which characters beyond ASCII `strconv.IsPrint` takes to be printable.
--
-- Not modelled: HTTP, what the reverse proxy and the tunnel copy, the text of errors and logs but for
-- the lines of a server's output, flags, signals and the end of the HTTP server. The drain of a queue
-- is one step. White space in the output of nvidia-smi is that of ASCII.
-- `sort.Slice`, which promises no order of equal elements, is an insertion sort.
pub mod Base
pub mod Config
pub mod Memory
pub mod Process
pub mod Orchestrator
pub mod Scheduler
pub mod Requests
pub mod Proxy
pub mod Startup
pub mod Samples
mod Examples
