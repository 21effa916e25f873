-- ===== src/Lib.antt =====
-- Verification of the core of RapidsMPF, a C++ library that moves data between ranks: the accounting
-- of memory, the threads that drive progress, the shuffle, the exchange of messages between ranks that
-- it stands on, the sparse all-to-all, the allgather and the allreduce, and the memory requests of the
-- streaming engine, and the options with their binary form. Paths are from the root of the repository.
--
-- The parts and how they interact. A BufferResource keeps a limit and a count of reserved bytes for
-- each memory type; buffers are allocated against reservations. When memory runs short its
-- SpillManager calls the spill functions that components such as the shuffler register. A
-- PausableThreadLoop runs the ProgressThread, which calls registered functions in turn, among them
-- the event loop of each Shuffler: it hands queued chunks to a metadata payload exchange and receives
-- chunks from it. A FinishCounter tells when all chunks of a shuffle have arrived. The exchange itself
-- is a TagMetadataPayloadExchange: it sends each message as metadata with a trailer and then as data,
-- and hands the messages of each rank out in the order in which they were sent. The collectives have
-- chunks of their own, which wait in a PostBox that can be spilled; a SparseAlltoall sends them to a few
-- ranks and tells by the finish message of each source when all of its messages are there; an
-- AllGather passes them around the ring of ranks. An AllReduce exchanges buffers between pairs of
-- ranks, stage by stage. The actors of the streaming engine reserve memory through a
-- MemoryReserveOrWait, whose periodic task admits the requests that wait.
--
-- Which file models which part:
--   Prelude.antt and children   lists, integers, results, maps and bytes that all parts share; Result
--                               stands for the exceptions of include/rapidsmpf/error.hpp
--   Memory/Types.antt           cpp/include/rapidsmpf/memory/{memory_type,content_description}.hpp
--   Memory/Resource.antt        cpp/src/memory/buffer_resource.cpp and memory_reservation.cpp:
--                               memory_available, reserve, release, split, clear (~MemoryReservation),
--                               try_reserve, reserve_or_fail; Resource/Limits.antt,
--                               Resource/Search.antt and Resource/Ledger.antt hold what is shown
--   Memory/Buffer.antt          make_buffer, move and ensure_memory_type of buffer_resource.cpp
--   Memory/Record.antt          cpp/src/memory/scoped_memory_record.cpp
--   Memory/Adaptor.antt         cpp/include/rapidsmpf/detail/rmm_resource_adaptor_impl.hpp
--   Memory/Spill.antt           cpp/src/memory/spill_manager.cpp
--   Thread.antt                 cpp/src/pausable_thread_loop.cpp: the loop thread has a program
--                               counter (Place) and one step (loop_step); the calls of other threads
--                               are steps between
--   Progress.antt               cpp/src/progress_thread.cpp
--   Shuffler/Finish.antt        cpp/src/shuffler/finish_counter.cpp
--   Shuffler/Chunk.antt         cpp/src/shuffler/chunk.cpp, with the bytes of the wire format
--   Shuffler/Inbox.antt         the receiving side of cpp/src/shuffler/shuffler.cpp, and
--                               ReceivedChunks of cpp/src/shuffler/postbox.cpp
--   Shuffler/Outbox.antt        the sending side of shuffler.cpp, and ChunksToSend of postbox.cpp
--   Shuffler/Progress.antt      the class Shuffler::Progress of shuffler.cpp
--   Messages.antt               cpp/src/streaming/core/spillable_messages.cpp: a heap of items, so that
--                               a thread may hold an item that another has removed
--   Coll/Chunk.antt             Chunk of cpp/src/coll/utils.cpp, with the bytes of its wire format
--   Coll/PostBox.antt           PostBox and test_some of utils.cpp; PostBox/Fewest.antt,
--                               Device.antt, Cleared.antt and Spills.antt beside it are about its
--                               spilling
--   Coll/SparseAlltoall.antt    cpp/src/coll/sparse_alltoall.cpp, with the event loop in
--                               SparseAlltoall/Loop.antt; Order.antt and Arrival.antt beside it are
--                               about the order of extraction and the count of messages
--   Coll/AllGather.antt         cpp/src/coll/allgather.cpp, with the event loop and the spilling in
--                               AllGather/Loop.antt; AllGather/Gate.antt is about the metadata messages
--                               that it takes
--   Coll/AllReduce.antt         cpp/src/coll/allreduce.cpp, one rank; AllReduce/Cluster.antt puts the
--                               ranks together with the messages between them, and the other
--                               children follow the stages and their result
--   Streaming/Reserve.antt      cpp/src/streaming/core/memory_reserve_or_wait.cpp; Reserve/System.antt
--                               interleaves the callers, the passes of the periodic task and a
--                               shutdown, and the other children hold what is shown
--   Config.antt                 cpp/src/config.cpp, cpp/include/rapidsmpf/config.hpp, and trim and
--                               to_lower of cpp/src/utils/string.cpp; Config/Wire.antt and
--                               Config/RoundTrip.antt are about the binary form
--   Exchange.antt               the state of
--                               cpp/src/communicator/metadata_payload_exchange/tag.cpp
--   Exchange/Send.antt          send, finish and is_idle of tag.cpp
--   Exchange/Receive.antt       receive_metadata and try_attach_receive_buffer of tag.cpp
--   Exchange/Transfer.antt      setup_data_receives, force_allocation_progress_if_stalled,
--                               complete_data_transfers, progress and recv of tag.cpp; the other
--                               children (Arrivals, Fifo, Completed, Forced, Channel, Trailer,
--                               Batches, Delivery) hold the queue of messages of each rank that these are
--                               compared with; a message stands there with its metadata and with
--                               whether it has data
--   Examples.antt and children  runs at concrete inputs
--
-- Conventions. Numbers are natural numbers; an unsigned counter wraps where the source lets it
-- (% 2 ^ w), a conversion with safe_cast is an error value out of range, and signed overflow is the
-- error `undefined`. The counts of ScopedMemoryRecord are unbounded integers, and a size that
-- the adaptor is given is checked as it is there. A function that changes
-- state and then throws returns both the state and the error. A map is an association list with one
-- entry a key. All loops are structural recursion, so no fuel is used. Code under one mutex is one
-- step; in a turn of the shuffler, other threads act at every point between two reads of what they
-- share.
--
-- What tag.cpp keeps by rank in vectors and maps is one record a rank here, and its maps are walked in
-- the order of the ranks; std::ranges::sort is an insertion sort.
--
-- Texts are lists of bytes, and lower case is that of the C locale. An allreduce is given the contents
-- of its buffers as a type with a size, a memory type and an operator; the parsers of option values are
-- parameters too.
--
-- Parameters: the owner function of a shuffle and the memory types that can be sent to a rank, the
-- metadata payload exchange (an interface that the shuffler is given), the functions that users
-- register with the spill manager and the progress thread, the function that allocates receive
-- buffers, and the communicator: what has arrived and which operations are complete are arguments,
-- what is sent is a result. The clock is an argument too, and so is what other threads do within a turn
-- of the shuffler.
--
-- Not modelled: the contents of buffers, CUDA streams and events (a buffer carries whether its latest
-- write is done), failing upstream allocations, statistics, logging and tracing, the communicators
-- on MPI and UCXX, the element-wise operators of an allreduce, the rest of the streaming layer, the
-- environment variables and the parsers of option values, bootstrap and launcher, and the bindings.
-- The state that an exception leaves behind in the
-- tag based exchange and in the event loops of the collectives is not modelled.
pub mod Prelude
pub mod Memory
pub mod Thread
pub mod Shuffler
pub mod Progress
pub mod Examples
pub mod Messages
pub mod Coll
pub mod Exchange
pub mod Streaming
pub mod Config
