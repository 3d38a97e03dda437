-- ===== src/Lib.antt =====
-- rpc-proxy: a proxy in front of several JSON-RPC providers of a chain that answers every read from one
-- accepted head.
--
-- The parts and how they interact. One coordinator process per chain holds a lease in a shared store
-- (internal/head), observes the providers' heads and decides which becomes the accepted head
-- (internal/coordinator). A head on another branch is accepted only behind a fence: the store's reorg
-- epoch is advanced and marked pending before, and the publication acknowledges it. The gateway
-- (internal/gateway) takes a snapshot of the accepted heads, rewrites each read so that it names one
-- block of the accepted chain (internal/chain finds that block by parent links), sends it to a provider,
-- and compares a second snapshot with the first before it lets the results out. Receipts are cached only
-- if their block is on the accepted chain (internal/services/receipts), in a bounded cache
-- (internal/services/requestcache).
--
-- The files, with the code that each models:
--   Prelude       names shared by all files: texts as lists of bytes, 64-bit wrap-around (`u64`), decimal
--                 numbers, Go maps as functions, results
--   Quantity      internal/utils/evm.go: ParseEVMQuantity, FormatEVMQuantity, IsEVMHash
--   Head          internal/head/types.go: Head, Identity, IsZero, Snapshot
--   Store         internal/head/types.go: MemoryStore. Store/Defs has one function per method; Store/Runs
--                 runs sequences of the operations, in the order in which the lock admits them; Fencing,
--                 Epochs, Stream and Reads hold the theorems on leases, reorg epochs, the event stream
--                 and its readers
--   Contract      internal/head/types.go: what the interface Store promises of one chain, as one function
--                 of a call, and what a sequence of calls and lapsed leases comes to
--   Redis         internal/head/redis.go. Defs: the scripts; Calls: the methods, with requests and replies
--                 that are lost; Reads: StreamCursor, StreamStart, ReadEvents; Refines, Fencing and Resume
--                 hold the theorems. Store/Refines compares the in-memory store with the contract
--   Chain         internal/chain/runtime.go. Chain/Defs: ParseEVMHead, Candidates, EVMBlockByHash;
--                 Chain/Blocks: GetEVMBlock, getEVMBlockByQuantity; Chain/Links: ancestry as a relation;
--                 Chain/Reader: the interface of a reader of blocks by hash, which the runtime fills;
--                 Chain/Pinning: the walk down the parent chain; Chain/Availability: HasEVMBlock,
--                 HasSolanaSlot, probe and its cache; Chain/Probes: the
--                 theorems on that cache
--   Validation    internal/chain/runtime.go: validateUpstream and probeEVMStateMethods. Probes: the calls and
--                 the steps
--   Coordinator   internal/coordinator/coordinator.go. Transition: validateEVMTransition; Evidence:
--                 getCanonicalEvidence; Consider: selectFreshest and consider; Monad: the state that a
--                 check carries; Walks, Ancestry, Tracking, Headers, Sessions, Chosen and Choice hold the theorems
--   Gateway       internal/gateway. Registry, Requests and Dispatch: transform.go for EVM chains and the
--                 static methods of cache.go;
--                 Verification: verification.go; Solana: transform.go for Solana; Fence:
--                 reorg.go; Process: router.go, process up to getResponse, and Validate of
--                 internal/jsonrpc; Route: router.go, route on an EVM chain, with Route/Answers; Routed,
--                 Nulls, Pinned, Ranges, Admission, Served, Slots and Epochs hold the theorems
--   Receipts      internal/services/receipts/receipts.go: ContainsBlock
--   RequestCache  internal/services/requestcache/cache.go: get, put, remove
--   Upstream      internal/upstream/client.go. Defs: the failure circuit and Call; Circuit and Calls hold
--                 the theorems
--   Websocket     internal/gateway/websocket.go. Feed: expandPath and eventLoop; Session: readLoop, subscribe,
--                 unsubscribe, notify and the queue; Paths, Gapless, Loop, Window and Replies hold the
--                 theorems
--   Config        internal/config/config.go. Defs: applyDefaults and Validate; Loaded: what a loaded
--                 configuration satisfies
--   Tests         the theorems at concrete inputs
--
-- Conventions. Numbers are natural numbers and a uint64 that grows is reduced modulo 2 ^ 64; theorems
-- over many operations assume that fewer than 2 ^ 64 numbers are drawn. Times are numbers of nanoseconds,
-- 0 is Go's zero time, and a method that reads the clock takes the times it reads. Providers are a
-- `World`: what a call returns may depend on the tick at which it is made, and every call takes one tick,
-- so two equal calls may be answered differently. Deadlines and refused connections are failed replies.
-- JSON is seen as the decoders see it; `json.Valid` is a parameter of the cache.
--
-- The Redis server. A script runs alone. The JSON of a head is the head that it encodes, but for the
-- header's own JSON, which a script decodes and encodes again: `recode` is what comes out. A key with a
-- time to live is gone at some moment, which is an event of a history. `rank` is the number as which the
-- server compares an event's ID. A call is delivered, or its request or its reply is lost.
--
-- Fuel. The walks of Transition count the rounds that the configured depth leaves, as the source does,
-- and so does expandPath. The walks of Chain/Blocks and Receipts take the distance of the heights, and
-- the loop of `put` the number of entries and one; theorems state that this is enough. The rounds of
-- Route count how often a read's deadline still lets it wait for the next one, and those of
-- Websocket/Feed are the readings before the connection ends.
--
-- Not modelled: the HTTP transport under an upstream's calls, HTTP requests and their batches, the
-- accepting of websocket connections, admin handlers, the clients' labels, telemetry, the reading of
-- configuration files and of the environment, QuickNode's endpoints, and the goroutines and tickers
-- around `consider`, whose calls are taken one after the other, as are the calls of one upstream
-- client and the checks of one runtime. Routing is modelled on EVM chains only. The store changes only
-- by the coordinator's own calls while it considers one head; other coordinators are covered by the
-- theorems on runs of the store.
pub mod Prelude
pub mod Quantity
pub mod Head
pub mod Store
pub mod Contract
pub mod Redis
pub mod Chain
pub mod Coordinator
pub mod Gateway
pub mod Receipts
pub mod RequestCache
pub mod Validation
pub mod Upstream
pub mod Websocket
pub mod Config
pub mod Tests
