-- ===== src/Lib.antt =====
-- The engine of Siena: a simulator of memory systems that runs an application model, a graph of data nodes
-- with access patterns, on the cores, caches and memories of a machine model. Paths are from the root of the
-- repository.
--
-- How the parts work together. A block of a graph (engine/ar_execblock.cpp) holds data nodes
-- (engine/ar_dnode.cpp); Engine::build_execgraph (engine/ar_parse.cpp) puts them into groups; set_global_control finds how many global steps it has, and init_offsets
-- how many operations are in one. Engine::init_thread_ctx
-- (engine/ar_engine.cpp) divides the steps among threads, which Engine::exec_node_longstep advances in turn. A thread's context (engine/ar_context.cpp) asks the
-- nodes for the addresses of each step (gen_addr), and dispatches the operations through its ports to the
-- first-level cache (engine/ar_cacheobj.cpp), whose array (engine/ar_cache.h) decides on hits and victims. A
-- miss goes to the next level, and a miss of the last level to a memory (engine/ar_memobj.cpp), which answers
-- after a fixed latency or hands the line to the adapter of a memory simulator (engine/ar_memsim.cpp,
-- engine/ar_ramulator.cpp, engine/ar_nvdsim.cpp, engine/ar_dramsim.cpp). The adapter advances the simulator
-- with the CPU clock and reports completed reads to the memory, from which they travel back through the
-- levels to the context. Before all that, Engine::init_data_placement (engine/ar_config.cpp) gives the data
-- their addresses, and the cores (engine/ar_core.cpp) connect threads to caches.
--
-- Which file models which part.
-- - Base and its children: Boolean tests, vectors, 64-bit words, digits and maps.
-- - Types: REQ_T and gcd of engine/ar_typedef.h; an id stands for each pointer.
-- - Cache/Geometry: IsPower2, FloorLog2, CeilLog2, SplitAddress. Cache/Lru: CACHE_SET::LRU, with
--   Find_and_Update as find_and_update and Evict_and_Update as evict_and_update. Cache/Array: CACHE_BASE and
--   CACHE; the constructor is init_cache, and the two steps of lookup_evict_update on one set are set_access.
-- - DataNode: the node, its constructor, set_pattern and set_tile. DataNode/Generators: the generators, whose
--   names keep the source's. Layout, Interior, Slices, Windows, Pattern and Faults are about the cells that
--   the generators touch.
-- - Simulator: MemSim and the three adapters; process_read is process_read_requests. The simulators are not
--   part of the engine: Backend has the two calls, and Honest of Simulator/Insert says what they document,
--   that a read that is taken completes once and nothing else completes.
-- - Memory: MemObj. Engine: init_thread_ctx. Engine/Loop: the loops of Engine::exec_node_longstep, warm_loop and
--   step_loop, with what comes before them as exec_start; Engine/Count, Engine/Finish, Engine/Warm and
--   Engine/Stuck are about them. Graph: Engine::build_execgraph of engine/ar_parse.cpp; Graph/Kept, Graph/Groups,
--   Graph/Entries, Graph/Built, Graph/Visits, Graph/Links and Graph/Depend are about it. Parse: build_nodes,
--   parse_memtraits and construct_graph of the same file, on statements as the Aspen library evaluates them;
--   Parse/Nodes and Parse/Construct are about it. ExecBlock: the node list and set_global_control.
--   ExecBlock/Offsets: init_offsets; DataNode/Counters, ExecBlock/Recount and ExecBlock/Window are
--   about it.
-- - Level: CacheObj, one level of cache. What lies beneath it is the parameter Beneath, with the calls of the
--   next level and of the memories. Level/Merge, Level/Pending, Level/Reach and
--   Level/Sweep are about the lines that wait.
-- - Placement: the addresses that init_data_placement of engine/ar_config.cpp gives, and find_memobj of
--   engine/ar_utility.cpp. Core: engine/ar_core.cpp, with connect_cache and link_core_ctx.
-- - Context: the ports, dispatch and complete_op of engine/ar_context.cpp; the first-level cache is the
--   parameter L1. Walk: the loop that fetch_global_step and fetch_global_step_warmup share, with the visit of a
--   node as a parameter. Thread: init, fetch_global_step, retire_head and warmup on a context with its window;
--   Thread/Advance: advance and init_window. Thread/Ring, Thread/Fetch, Thread/Refill, Thread/Retire,
--   Thread/Fill, Thread/Start, Thread/Unloaded, Thread/Shape, Thread/Steady and Thread/Events are about them.
-- - Tests: concrete inputs.
--
-- Conventions. uint64_t, size_t and ADDR_T are natural numbers, and each operation that can wrap is add64,
-- sub64 or mul64. A PANIC, a failed assertion, a division by 0 and an index out of range are `none`. Storage
-- that the source leaves uninitialised is an argument (raw, junk, beyond). Code under DEBUG and SAVE_TRACE
-- and all output are left out. A loop over a list or a number of rounds is structural. Three take fuel: gcd,
-- whose fuel is its second argument and one more, which falls at every call; the walk, for which the number
-- of steps of all groups is enough; and the loop of CacheObj::advance, for which the number of pending lines
-- is enough where it ends at all. The loop of retire_head takes a bound on the steps that it fetches, for
-- which the number of steps left and one more is enough. Of the loops over the threads the warm-up needs one
-- pass more than the most steps of a thread; for the loop over the steps no bound is claimed. A loop `i <= tick_end` runs tick_end + 1 - tick_st
-- rounds, which is what the source does where tick_end is below 2 ^ 64 - 1.
--
-- Not modelled: sync_ticks, the setters and constructors that only copy fields,
-- fetch_ops, update_dependency and update_loop of engine/ar_context.cpp, which nothing calls, and
-- the reading of the configuration, which is written against the Aspen library.
pub mod Base
pub mod Cache
pub mod DataNode
pub mod Types
pub mod Simulator
pub mod Level
pub mod Memory
pub mod Placement
pub mod Walk
pub mod Graph
pub mod Parse
pub mod Core
pub mod Engine
pub mod Context
pub mod Thread
pub mod ExecBlock
pub mod Tests
