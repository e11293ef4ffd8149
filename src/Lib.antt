-- ===== src/Lib.antt =====
-- A model of SHOC, a C++ library of coroutines around the DOCA SDK (directory shoc of the
-- repository), and of what makes its core correct.
--
-- The program's parts. A coroutine that offloads a task gets an awaitable, whose receptable is the
-- meeting point with the callback that DOCA makes when the task is complete. Tasks run on contexts,
-- contexts hang in a tree below a progress engine, which submits tasks and runs the event loop as
-- long as fibers hold leases or contexts are connected. A comch server is a context with
-- connections, which have consumers and producers as children; a comch client is a context and a
-- connection in one. What arrives from the other side (messages, connections, remote consumers)
-- goes through accepter queues. Ethernet frames are views of raw memory with checksums. The
-- accelerators, RDMA connections, Ethernet queues and sync events are contexts too, each with a
-- constructor that configures DOCA and operations that submit tasks. Buffers, memory maps and
-- devices are what tasks work on; flow is a separate set of builders for rules on packets.
--
-- Which file models which part:
--   * Doca: the error codes and context states of DOCA that the code tests.
--   * Error: shoc/error.hpp. A function that may throw has an outcome: a value, an exception, the
--     end of the program (an exception that leaves a noexcept function) or undefined behaviour.
--   * Coro: shoc/coro/value_awaitable.hpp and shoc/coro/status_awaitable.hpp. `Receptable` is
--     value_receptable; an awaitable is an optional receptable. Coro/Meeting has the callback and the
--     coroutine as two sequences of steps, and every interleaving of them.
--   * AccepterQueues: shoc/common/accepter_queues.hpp. A receptable is known by the number of its
--     accept; `disconnect` takes what a resumed coroutine does to the queues as an argument.
--   * Context: shoc/context.hpp and shoc/context.cpp, one context. Context/Registry is
--     dependent_contexts, Context/Scoped the wrappers unique_scoped_context and, from
--     shoc/comch/server.hpp, scoped_server_connection; Conservation has any number of the latter.
--   * ProgressEngine: shoc/progress_engine.hpp and shoc/progress_engine.cpp: submission and
--     resubmission; Lease is progress_engine_lease, EventLoop is progress_engine::run, Life the
--     constructor and the destructor.
--   * Comch: shoc/comch. RemoteConsumer is remote_consumer_queues and producer::send, Server is
--     server and server_connection as far as they stop, Callbacks the other events and calls on them,
--     Resolve how a callback finds its object, Client is client. `Server` is one state with all
--     connections, so that the calls between a server, a connection and its children are calls on it.
--   * EthFrame: shoc/eth_frame.hpp and shoc/eth_frame.cpp: Ipv4, Ipv6 and Udp are the classes,
--     Checksum the loop and the folds that their checksum functions repeat, Regions where options and
--     payload lie.
--   * AlignedMemory: shoc/aligned_memory.hpp. The vector is allocated at any address. The bytes are
--     those of the span that lie within the vector, which are fewer where a size wraps around.
--   * Offload: what the contexts have in common, and those that consist of nothing else. Setup is
--     the series of checked calls of a constructor (enforce_success of shoc/error.hpp in sequence),
--     those of shoc/context.hpp that create the handle and connect it to the engine included;
--     Contexts has the constructors of shoc/compress.cpp, shoc/sha.cpp, shoc/aes_gcm.cpp,
--     shoc/erasure_coding.cpp, shoc/dma.cpp, shoc/sync_event.cpp, shoc/rdma.cpp and of consumer and
--     producer in shoc/comch, Ethernet those of shoc/eth_rxq.cpp and shoc/eth_txq.cpp, CommChannel
--     those of shoc/comch/server.cpp and shoc/comch/client.cpp; Operations has the tasks that they
--     submit, Callbacks the completion callbacks, Configured the family of all contexts, Objects
--     what contexts export and the matrices and RDMA addresses that one call makes.
--   * EthRxq: the queues of shoc/eth_rxq.cpp that DOCA fills by itself, on AccepterQueues.
--   * Rdma: the connection manager of rdma_context (shoc/rdma.cpp); History has its events in any
--     order, Refused the connection that DOCA refuses.
--   * AesGcm: keys and the stop of shoc/aes_gcm.cpp. All keys of a context are one list.
--   * Buffer: shoc/buffer.cpp, shoc/buffer_inventory.cpp and shoc/buffer_pool.cpp.
--   * MemoryMap: shoc/memory_map.cpp, and pci_dev::remote_mmap of shoc/devemu_pci.cpp.
--   * Device: shoc/device.hpp and shoc/device.cpp: capabilities and the search of a device.
--   * DevemuPci: pci_dev of shoc/devemu_pci.cpp; PciType is pci_type.
--   * Flow: shoc/flow.hpp and shoc/flow.cpp: the three builders as one `Cfg` that records the calls
--     that DOCA accepted; Actions is extended_actions, Forwarding docaify_fwd, Pipes what pipes are
--     built with and given, Calls the operations that are one call of DOCA.
--
-- DOCA and asio are not part of the repository: what DOCA answers to a call is an argument (a
-- function of the number of calls before, or `Answers`), and whatever it may answer is covered. A
-- stop may take effect within the call, by a callback that runs before `doca_ctx_stop` returns,
-- later, or be refused. Coroutines are numbers; resuming one is recorded, and what it does then is
-- a further event. Where an argument stands for it, it is any sequence of calls.
--
-- Numbers are natural numbers; uint8_t, uint16_t and uint32_t keep their wrap-around, and the sizes
-- in EthFrame/Regions and AlignedMemory that of std::size_t. Raw fields of packets are what a little-endian host
-- loads. Loops whose end depends on DOCA run on fuel: one more than immediate_submission_attempts
-- for the immediate submissions, resubmission_attempts for the delayed ones, the number of waiting
-- accepters for the disconnection of queues, and more than a measure of the state for the destructor of
-- the progress engine; the theorems say that this is enough. The event loop runs for as long as fibers
-- and contexts want it to, so that nothing is said of its end.
--
-- Not modelled: logging but for its count, the lifetime of objects beyond the ownership in
-- Context/Scoped, AesGcm and Buffer, and the payload of messages beyond its bytes. Names given to
-- DOCA are left out. The samples and tools use the library and are not part of it.
pub mod AccepterQueues
pub mod AesGcm
pub mod AlignedMemory
pub mod Base
pub mod Buffer
pub mod Comch
pub mod Context
pub mod Coro
pub mod DevemuPci
pub mod Device
pub mod Doca
pub mod Error
pub mod EthFrame
pub mod EthRxq
pub mod Flow
pub mod MemoryMap
pub mod Offload
pub mod ProgressEngine
pub mod Rdma
