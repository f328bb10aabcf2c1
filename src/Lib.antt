-- ===== src/Lib.antt =====
-- Shared-memory RPC: the verification library of memrpc and the services on it.
--
-- Two processes share one memory object. Its header names three rings of fixed-size entries: urgent
-- requests, normal requests, and responses. A client pushes requests and pops responses, a server does
-- the reverse, and event descriptors wake the other side. Payloads too large for an entry travel in a
-- file that an envelope in the entry names.
--
-- Files and the code that they model (paths from the root of the repository):
--   Types: memrpc/include/memrpc/core/types.h, protocol.h, bootstrap.h. Status codes, ring entries and
--     handles. A descriptor is an option, `none` for a negative `int`.
--   Ring and its children: RingCursor and RingCount (memrpc/src/core/shm_layout.h), ValidateRingCursor,
--     PushRingEntry, PopRingEntry (memrpc/src/core/session.cpp). Ring.Queue is the specification,
--     Ring.Window is about slots, Ring.Refine relates the two, Ring.Wrap is about capacities that do not
--     divide 2 ^ 32, and Ring.Concurrent interleaves the steps of one producer and one consumer.
--   Layout: AlignOffset, HasAlignedPayloadSizes, ComputeLayout (memrpc/src/core/shm_layout.h) and
--     ValidateLayoutConfig (memrpc/src/core/session.cpp), with 64-bit wrap-around.
--   Session: the class Session (memrpc/src/core/session.cpp). A World is the session, the memory object,
--     the number of mappings and the descriptors closed. Session.Attach is Attach with its steps, and
--     Session.Queues the pushes and pops. A Kernel holds the answers of the operating system to one call.
--   Client and its children: memrpc/src/client/rpc_client.cpp with its header. Client.Store is
--     ClientRequestStore, Client.Futures is RpcFuture, Client.Recovery is ClientRecoveryState,
--     Client.Transport is ClientSessionTransport on top of Session, Client.State is the state of
--     RpcClient::Impl, Client.Decisions what a failure decides, Client.Submit the submit thread,
--     Client.Responses the response thread and the watchdog, Client.Lifecycle is Init, Shutdown and the
--     steps of a client, Client.Closed is about what comes between the parts of a shutdown and follows
--     it. Client.Work states once, as laws, what an operation may do to futures and requests, shows that
--     every step obeys them, and draws the conclusions.
--   Host: memrpc/src/bootstrap/shared_memory_session_host.cpp. A HostKernel holds the answers of the
--     operating system. Host.Outcome lists the outcomes of a creation, and Host.Attachable relates what
--     it creates to what Attach accepts.
--   Registry: virus_executor_service/src/transport/registry_protocol.cpp (the codec in Registry and
--     Registry.Protocol, the messages in Registry.Messages), registry_server.cpp (Registry.Server, over
--     the map of Registry.Services) and registry_client.cpp (Registry.Client). A Link stands for the calls
--     on one direction of a stream socket, and IsStream states what a stream keeps; Registry.Frames and
--     Registry.Arrivals follow a message through it, and Registry.Calls composes client and server.
--     Registry.Loading and Registry.Loads are about HandleLoadRequest.
--   Scan: virus_executor_service/include/ves/ves_codec.h with its message types (Scan, Scan.Codecs),
--     src/ves/ves_sample_rules.cpp (Scan.Rules, Scan.Samples) and src/service/ves_engine_service.cpp
--     (Scan.Engines, Scan.Kinds, Scan.Configured), ves_session_service.cpp (Scan.Sessions,
--     Scan.Consistent, Scan.Holds, Scan.Runs, Scan.Closing) and virus_executor_service.cpp
--     (Scan.Ability, Scan.Heartbeats) of virus_executor_service. Parts stands for the session host and the server that it uses.
--   Codec: ByteWriter and ByteReader (memrpc/src/core/byte_writer.cpp, byte_reader.cpp).
--   FilePayload: memrpc/src/core/file_payload.cpp, the envelope in FilePayload.Envelope and the side that
--     reads and removes a payload's file in FilePayload.Files, over the parameter Posix for the calls of
--     the operating system, and the side that makes and fills files in FilePayload.Writing, over Maker.
--   Server and its children: memrpc/src/server/rpc_server.cpp. Server.Executor is ThreadPoolExecutor as the
--     steps of its threads, Server.Completions the completion queue as the steps of the threads that use it,
--     Server.State the state of RpcServer::Impl, Server.Writer the response writer, Server.Requests what a
--     worker does with a request, Server.Dispatch the dispatcher over a TaskExecutor, whose contract
--     Server.Dispatch.Pool shows for the thread pool, and Server.Lifecycle is Start, Stop and the statistics.
--   Prelude: tests, lists and words that these share. Modules named Examples hold tests and instances.
--
-- Pointers that may be null are options or Booleans; an out-parameter is a further result. Cursors are
-- numbers below 2 ^ 32 with `% 2 ^ 32` written out, `size_t` has 64 bits, words are copied in
-- little-endian order, and an `int32_t` is its bit pattern. Loops are recursion on lists. Those over
-- reads and writes of a file or a socket have as many rounds as there are bytes, of which each round
-- takes one at least; Registry.Rounds is about two of them. A failure may
-- decide on a recovery that fails the requests that wait, and so on: that recursion has a depth, which is
-- two, and Client.Work.Depth is about it. `sizeof(SharedMemoryHeader)` and the alignments depend on the
-- platform and are the parameter Abi. Ring.Concurrent takes the accesses of the two sides in one order that both see: weaker memory orders are not modelled. A
-- session state that the peer changes between the two tests of a push is an argument of the push.
--
-- A client is a state and its operations, one at a time, as its locks order them; every order of the
-- operations of its threads is a list of steps. Init and Shutdown hold no lock over their bodies, so
-- their parts are steps too; where a step is a whole Init or Shutdown, nothing comes between its parts. In
-- the same way a step of the session service is one hold of its lock, and OpenSession and CloseSession
-- have two. One reading of the clock stands for those of one operation. What a bootstrap channel answers, and the file behind a payload, come with the operation.
-- The submit thread's waits end in an operation of their own, at any time and with any status.
--
-- A server is a state and the operations of its threads. A worker's task runs up to where it waits for its
-- completion, and on from there. A handler is a function from its call to its reply. The retries of a push
-- are listed with what happens between them, and the list ends with the deadline. Stop is run in the order
-- in which it waits for the other threads.
--
-- Not modelled: the waits of the client, the control proxy and the clients above memrpc, logging, and the code under third_party.
pub mod Prelude
pub mod Types
pub mod Ring
pub mod Codec
pub mod FilePayload
pub mod Layout
pub mod Session
pub mod Client
pub mod Host
pub mod Server
pub mod Registry
pub mod Scan
