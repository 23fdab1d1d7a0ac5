-- ===== src/Lib.antt =====
-- Verification of x1miner, a GPU miner for XenBlocks.
--
-- The miner hashes keys on the GPU and looks for hits: hashes that hold XEN11 or XUNI. A hit is
-- encoded as an Argon2 text, goes through the supervisor's gates into the queue of live
-- submissions, and from there to the pool, or into the bag, a block store on disk that is flushed
-- in waves when the pool takes its blocks. The library models the host code of these parts; each
-- module's opening comment names its source file.
--
-- Parts and modules (paths from the repository's root):
--   Base           what the others share: lists, a sort and Boolean tests over the native numbers, integers,
--                  byte strings (`std::string`), and `double` as an interface (Double)
--   Common         src/common.hpp: BlockHit, NetworkStatus, SubmitResult, MiningStats, and
--                  src/monitoring/metrics.cpp, the tracker (Common.Stats). Common.Json is the
--                  interface of the JSON library, JsonLib, and what the store relies on, JsonLaws.
--   Queue.Policy   src/queue/policy.cpp: the XUNI windows and the flush priority
--   Queue.Codec    src/queue/store.cpp: PendingBlock, hits and blocks as JSON
--   Queue.Store    src/queue/store.cpp: class BlockStore as the record BlockStore, one function per
--                  method (enqueue, mark_submitted, record_rejection, flush, ...); Batch is
--                  list_flush_batch, Load is the constructor with load and recover_jsonl_unlocked.
--                  Methods.run is any sequence of calls.
--   Mining         src/mining/block_types.cpp, argon2_encode.cpp and vram_batch.cpp: the kind of a
--                  block, the Argon2 text of a hit, and the VRAM plan of the engine;
--                  src/mining/cuda_engine.cpp: class CudaEngine as the record Engine, one function per
--                  method (Engine, with the XUNI throttle in Engine.Xuni), a lane's mailbox with its
--                  worker thread as a step relation (Lane), mine_batch and drain_pipeline (Wave), and
--                  any sequence of calls (Calls)
--   Efficiency     src/efficiency/thermal_policy.cpp (Thermal, and the hunt in Hunt) and
--                  vram_policy.cpp
--   HashApi        vendor/hashapi: base64, the search for matches, the check of a request, the batch
--                  size, how KeygenPool splits its work (with the key length of 64 that every
--                  caller passes); vendor/RandomHexKeyGenerator.h
--   Network        src/network/submitter.cpp and accept_network_difficulty of difficulty.cpp
--   Supervisor     src/app/supervisor.cpp. Oracle is the state under state_mu_ with the functions
--                  that read it, Network the operations that change it, Drain the match window, and
--                  Live the way of a hit: handle_hit, the live queue, process_live_submit and a turn
--                  of submit_worker_loop. Flush is try_flush_pending: the items and rounds of a wave,
--                  and what is around them in Flush.Send. Worker is service_pending_queue and the whole turn
--                  of submit_worker_loop, and Events any sequence of what the mining thread and the worker
--                  do, one call or one turn at a time. Run is the loop of the mining thread on the record
--                  Rig, which has the engine and the supervisor together: gpu_safety_tick, the cooldown
--                  and its end, the parking, a batch and the handler of its exception, and
--                  graceful_shutdown. The state of the rest is the record Supervisor: the
--                  network state, the block store, the statistics, the live queue, the drain, and the
--                  hits reported.
--   Tests          each theorem that has hypotheses at a concrete input
--
-- How the code is modelled. A method is a function from the state to the state and its result: the
-- code's mutexes make a method of the store one step. `process_live_submit` is one step as well,
-- although the source takes state_mu_ several times in it: what another thread does in between is
-- not modelled. The threads of the CUDA lanes are: a run of a lane is any interleaving of the steps of
-- its worker and of the batch loop, where a worker's wave may answer anything; what the workers do
-- while mine_batch waits is an argument of it. The clock, the minute of the hour, the
-- answer of the pool and the poller's snapshot are arguments, a clock that is read twice in one call giving the same time. An exception that is
-- caught is `none`, a sum, or a Boolean beside the state that the call leaves. What the device answers
-- is the record Device: whether it can be selected, what is free, and after how many new backends a
-- construction throws; a lane that is made stays when a later one fails. Making a thread does not
-- throw. `dump` of the JSON library throws on a text that is no UTF-8: `prints` of JsonLib tells
-- whether it does, and log_rejection asks it of the pool's answer. The submit worker catches nothing, so
-- that this ends the process; `ended` of the record Supervisor says so, the turn stops there
-- (has_thrown), and no event after it is taken. The texts of a hit are ASCII, made by the miner, or
-- come from a JSON file, so that the documents of hits and blocks are printed. The
-- three files of the store are part of its state: the database as the last document written, the two
-- logs as lists of lines; a write never fails.
--
-- Numbers. `int`, `int64_t` and `uint64_t` are unbounded unless the code's result depends on the
-- width: the conversions to uint32_t and uint64_t and the products of byte counts wrap, and
-- std::stoi and the JSON reads of an int have their bounds, and the conversion of a double to an int in
-- memory_limited_batch_size gives the least int where x86-64 does. `double` is the interface Double, of
-- which no law is assumed: its operations are parameters.
--
-- Loops. A loop over a container is recursion on the list. The loop that shrinks a VRAM plan has
-- the 10000 turns of the source. build_groups makes kMaxGroups groups at most, and has as many turns.
-- The rounds of a flush have as many turns as there are items to
-- send, since a round takes one at least. The key of a generator is written by recursion on the
-- number of its characters, and the digits of a number n by recursion on n + 1 turns, which n's
-- digits never use up. std::sort is an insertion sort by the same comparison, which decides every
-- pair with different ids.
--
-- Not modelled: the group operations of CudaEngine that no call reaches (dispatch_group, wait_group,
-- absorb_group); the CUDA kernels and device calls (vendor/*.cu, CudaBackend, CudaHashBackend) and
-- the cryptography (vendor/blake2b.cpp, argon2params.cpp), which the hits come from; HTTP, files,
-- sensors and the dashboard (src/util, src/monitoring), which are input and output; the settings
-- (src/config), whose values are arguments; and of the supervisor what it sets up before the run
-- loop and closes after it. Text for the log and the dashboard is left out wherever it stands, apart
-- from submit_response_hint.
pub mod Base
pub mod Common
pub mod Queue
pub mod HashApi
pub mod Mining
pub mod Efficiency
pub mod Network
pub mod Supervisor
mod Tests
