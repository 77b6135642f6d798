-- ===== src/Lib.antt =====
-- AIR: the run time of a machine of AI Engine tiles, and a pass of its compiler.
--
-- The host library (runtime_lib/airhost) and the controller firmware (runtime_lib/controller) share
-- a queue of packets in memory. The host fills a packet in, rings a doorbell and waits for the
-- packet's completion signal; the controller takes packets off the queue, programs the shim DMAs and
-- tiles, and lowers the signal. The compiler pass (mlir/lib/Transform/AIRHerdPlacementPass.cpp)
-- decides which tiles each herd of compute cores gets, AIRToAIEPass.cpp which locks and DMA channels
-- its copies use. The runner (mlir/lib/Util/Runner.cpp) simulates a launch to estimate its time.
--
-- Prelude: names, Boolean tests, lists, bit fields and machine words that all modules share.
-- Queue: runtime_lib/airhost/include/air_queue.h. `Packet` is a 64-byte slot, `Queue` is `queue_t`.
--   Queue/Signal: `signal_wait_acquire` and `air_queue_wait` over a history of the signal word.
-- Host: runtime_lib/airhost/queue.cpp. Packets has one function for each `air_packet_` builder,
--   AirQueue the creation of a queue and the dispatch. Memory has the loops of memory.cpp around
--   `memcpy`, DevMem the allocators of device memory.
-- Controller: runtime_lib/controller/main.cpp as the MicroBlaze build has it.
--   Controller/State: the firmware's globals as the record `Ctl`. A handler is a step of the monad
--     `M`; `in32` reads from a history, so that the device may answer anything, and `out32` appends
--     to a log. `Returns` says that a step ends and what it ends in.
--   Controller/Decode: the fields that the handlers take out of a packet.
--   Controller/ShimDma: descriptors of the shim DMAs; Controller/NdMemcpy: copies of up to four
--     dimensions, which stop when the DMA is full and go on from a saved cursor. Address is the
--     independent description of the rows of a copy; Outcome, Walk, Resume and Retry lead from one
--     loop to the whole copy.
--   Controller/Barrier: the AND and OR barriers, the completion of packets and the read index. Waits
--     is about the AND barrier, Falls about the OR barrier.
--   Controller/Init: the device, herd and information packets; Controller/Lock: the tile locks;
--   Controller/Cdma: the configuration packet.
--   Controller/Dispatch: `handle_agent_dispatch_packet`, which calls the handlers, completes the
--     packets and gives the copies that stall their turns.
--   Controller/Uart: the lock that keeps the messages of several controllers apart, access by access;
--     Race is about two controllers under a schedule.
--   Controller/QueueCreate: the layout of the queue in a controller's memory.
-- Setup: the queue that the controller creates against the queue that the host finds.
-- Protocol: what the host writes against what the controller reads.
-- HerdPlacement: the pass; Grid is about cells, Visit about one round, Disjoint, Maximal and
--   Report about the placement as a whole, Loose about herds outside every partition. The sort of
--   the herds is a parameter, of which only the documented fact is used that it permutes them.
-- Runner: mlir/lib/Util/Runner.cpp, which simulates a launch to estimate its time.
--   Runner/State: the nodes of the graphs and a runner for each graph, under numbers. Path is
--     `hasPath`; Vertices is about vectors of vertices and threads.
--   Runner/Depend, Execute, Reset: the dependencies of a vertex, what a vertex does when it is done,
--     and how a loop's body is made ready for its next iteration. Process is one round of one runner,
--     Launch the rounds of a launch until all runners are idle or the time is up.
--   Runner/Next says independently which vertices start; Graphs is the hypothesis that a graph has no
--     cycles and hierarchies nest, on which Effect, Returns, Threads and Ends build.
-- AirToAie: mlir/lib/Conversion/AIRToAIEPass.cpp, which gives locks and DMA channels to copies.
--   AirToAie/Locks: `allocateLockOp` and `getLockForTileDMA`; TileDma: `getTileDMAChannel`;
--     DmaAllocator: the shim and L2 DMAs, where Slots is the independent description.
--   AirToAie/BdProgram: the descriptor blocks of a new AIE.mem operation, by their indices; Ring is
--     about the blocks of one channel, Chain about the order of the start blocks, Channels about the
--     program of a tile.
-- Ernic: runtime_lib/airhost/pcie-ernic.cpp, the library of an RDMA card, and its header.
--   Ernic/State: the structs, and a step as a function from a card to its result: a value with the
--     next card, a fault where C++ defines nothing, or exhausted fuel. Reads come from two histories,
--     of the registers and of the device memory; writes go to one log, so that their order counts.
--   Ernic/Registers: the macros and offsets of the registers; Log: what a log says of the last value
--     of a register or a word. Registers/Window is about the registers of one queue pair.
--   Ernic/Buffer, Qp, Region: allocation, queue pairs and protection domains, memory regions.
--   Ernic/Wqe, Doorbell: requests and their doorbells; Advertise: the exchange of a buffer between
--     two hosts; Mac, Open: the network interfaces and the configuration of a device.
-- CostModel: mlir/lib/Util/CostModel.cpp, the counts of a linalg operation; Keys is about the map of
--   the counts.
--
-- Bounds and fuel. Words wrap at 2^64 where the C++ types do. The two loops of the firmware without
-- a bound (a full start queue, a pending barrier) and the wait of the host run on fuel: a read of
-- the history uses one unit at most, and the theorems ask for as many units as the device or the
-- other agent takes. `Drains` is the promise of the hardware that the start queue of the channel does
-- not stay full: `fuel` reads in a row of its size never all find it so.
-- The loops of the pass and the ND copies run on the number of rounds left, computed as in the code.
--
-- `hasPath` runs on fuel, one unit for each edge of a path and one more, and a reset on one for each
-- level of nested hierarchies and one more. The rounds of a launch need 5,000,001 units, since each
-- round is later than the last and the code stops at that time.
--
-- The waits of the RDMA library have no bound and run on fuel, one unit for each round; the theorems
-- ask for as many units as the card takes to answer. The alignment of an MRMAC has its bound of 20
-- attempts from the code.
--
-- The search for a staged copy needs 80 units, one for each slot.
--
-- Not modelled: printing, and the calls of the UART lock around it; the ARM and PCIe builds;
-- `handle_packet_cdma`, which nothing calls; the start of the firmware and its loop over the
-- queue; the host's mapping of memory and files, its discovery of devices, and network.cpp; the
-- MLIR operations that the passes walk over, and the other passes. Of the runner: assertions, the
-- trace file, and `modelOp`, whose latencies are a parameter since it computes in floating point on
-- a JSON file. Of the lowering to AIE: what creates, moves and erases operations of MLIR. Of the RDMA
-- library: null devices, the flush of the cache, and a protection domain that two queue pairs share.
-- Of the cost model: nested loops and the JSON text.
pub mod AirToAie
pub mod Controller
pub mod CostModel
pub mod Ernic
pub mod HerdPlacement
pub mod Host
pub mod Prelude
pub mod Protocol
pub mod Queue
pub mod Runner
pub mod Setup
