-- ===== src/Lib.antt =====
-- ICon3: whole messages over TCP, SSL and UDP by way of Boost.Asio, and concurrent containers. The code
-- is in src/ of the repository.
--
-- The parts, from the bottom up:
-- * NumberBuffer is the number code of src/ASIO.cpp (`NumberBuffer`): seven bits a byte, the top bit
--   set on all bytes but the last.
-- * Message is `Message` and its frame (`CreateOptimalBuffer`, `CanReadFullMessage` and
--   `TryReadMessageFromBuffer` of src/ASIO.cpp). A read past the end of a buffer is the outcome
--   `undefined`, since C++ gives it no meaning.
-- * FastMessage is the class of that name, which decodes a frame in its own buffer, read as if the
--   pointers that it assigns were cast, without which it does not compile.
-- * BiMap is the class of that name in src/ASIO.hpp, over the maps of Prelude.Map.
-- * Endpoint is the class of that name in src/ASIO.cpp. Boost's addresses are a parameter,
--   `AddressApi`, with the law that the text of an address is read back.
-- * Asio.Socket and Asio.Server are the class templates of src/Socket.cpp. An operation takes the
--   object and gives it back. A call of `async_read_some` is a `Request` that is given back too, and
--   `fetch_data` is what Boost calls when it completes; Asio.Socket.Stream says in which ways a
--   connected socket can go on. Asio.Socket.Sending is `Send`, with what `write_some` and the poll before it do in each
--   round of its loop as an argument, and Asio.Socket.Transfer has `Send` at one end and the fetches
--   at the other. The virtual functions of the server are a record, `Protocol`.
-- * Tcp and Ssl are src/TCP.cpp and src/SSL.cpp. They fill `Protocol`; Members has what only calls
--   the base classes. What Boost reports, the socket
--   that it makes and the peer that it finds are arguments.
-- * Udp is src/UDP.cpp: ids for endpoints in a `BiMap` and a queue of messages for each id. The
--   datagrams that `receive_from` finds are arguments; Udp.Transfer has them from `Send` of the peers.
--   Udp.Handle has `udp::Endpoint` as what it is in
--   memory, a pointer that the object owns or not, over the endpoints of Boost at their addresses.
-- * Concurrent is src/Concurrent.hpp. Concurrent.Memory has its nodes at their addresses and the
--   programs that read and write them; `supply` holds what `operator new` gives. Over it stand Linear
--   (`linear::stack`), SinglePool (`single_pool`), Equalizer (`single_pool_multi_thread_equalizer`),
--   Stack (`mpsc_stack`, `mpmc_stack`), Queue (`mpsc_queue` and the two `mpmc_stackqueue`s) and Ring
--   (`spmc_queue`), whole calls where no other thread is at work. Pool (`ptr::pool`) takes its
--   container as a record, `Container`, with the laws `StackLaws`, which `mpmc_stack` fills.
--   LockQueue (`spmc_queue_node`, `mpmc_queue_lock`) has two heaps, of the objects and of the ring.
--   Concurrent.Shared has the two stacks again, and Concurrent.Ring.Threads `spmc_queue`, as the single
--   reads, writes and exchanges that threads interleave.
-- Each part has its definitions in the file of its name, and its theorems in the modules below it.
-- Prelude has the lists, tests, bits and maps that the parts share.
--
-- Numbers: bytes are numbers of ℕ, and the 64-bit arithmetic of the code wraps (`u64`). Sizes of
-- buffers
-- are below 2^64, which is a condition where it matters.
--
-- Fuel: the loop of `PopNextEmptyId` has the number of its rounds. One round is enough where the ids in
-- use are not above the last one that was given out, which every operation on ids keeps. The loops that
-- wait for a message or a socket take what happens in each of their rounds as a list. The loops of
-- src/Concurrent.hpp take the number of their rounds, `rounds`, and a loop that has more to do then
-- is the
-- outcome `running`; no theorem lets a program end that way.
--
-- Not modelled: the table of sizes that the equalizer writes to a file; `SetMessageBody` and
-- `Decode()` of
-- `FastMessage` (which name variables that there are not), the macros of src/Debug.hpp and src/Benchmark.hpp, the
-- programs under tests/, and
-- threads on a socket, whose code runs in the handlers of one `io_context`. Only Concurrent.Shared and
-- Concurrent.Ring.Threads have threads, with memory that all of them see in one order. The order of an
-- `unordered_map` is that of a list, which no theorem depends on. A datagram whose title runs on
-- past its
-- end reads what an earlier datagram has left in the buffer of `udp::Socket`; the model gives that no
-- meaning.
pub mod Prelude
pub mod NumberBuffer
pub mod Message
pub mod FastMessage
pub mod BiMap
pub mod Endpoint
pub mod Asio
pub mod Tcp
pub mod Ssl
pub mod Udp
pub mod Concurrent
