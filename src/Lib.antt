-- ===== src/Lib.antt =====
-- A TCP server library in the manner of muduo: event loops over epoll, one per thread, and
-- connections that live in them. This library models its C++ code and proves what the parts promise.
--
-- The parts, and the files here that model them:
-- * Buffer (Buffer.h, Buffer.cc): the byte buffer of a connection, one in each direction. Buffer.antt
--   has its array, its two indices and its operations; Buffer/Content.antt the layout invariant
--   `IsValid` and the content, Buffer/Fifo.antt the queue that it implements.
-- * Channel (Channel.h, Channel.cc): a descriptor with the events that it waits for and the callbacks
--   for the events that came. Channel.antt; the masks are in Channel/Events.antt, the dispatch in
--   Channel/Dispatch.antt.
-- * Poller, DefaultPoller, EPollPoller: the table of channels and its copy in the kernel. Poller.antt;
--   `IsSynced` of Poller/Synced.antt says that table, channels and kernel agree. Epoll.antt is the
--   interface to the kernel's side.
-- * TcpConnection (TcpConnection.h, TcpConnection.cc): a connection, driven by its channel's
--   callbacks. TcpConnection/Members.antt has a record for its members, TcpConnection.antt one
--   function for each handler and operation; what it does to its loop, its socket and its user is a
--   list of effects in order. `IsSound` of TcpConnection/Sound.antt is its invariant,
--   TcpConnection/Runs.antt has its operations in any order, and TcpConnection/Registered.antt
--   hands the effects of a loop's connections to its poller.
-- * EventLoop (EventLoop.h, EventLoop.cc): a loop, its thread and the threads that give it work.
--   EventLoop.antt has the state, the operations, and a relation `Step` of what one thread does before
--   another may come between; `Reach` are the states that come about. The history of the functors
--   is part of the state. EventLoop/Setup.antt has the constructor and the destructor. Serving.antt has a
--   round of `loop()` over the loop's poller and its connections, Serving/Runs.antt such rounds with
--   functors, new connections and ended ones between them.
-- * EventLoopThread, with Thread::start (EventLoopThread.h, EventLoopThread.cc, Thread.cc): how a thread
--   with a loop starts and ends, as steps of two threads. EventLoopThread.antt.
-- * Thread and CurrentThread (Thread.h, Thread.cc, CurrentThread.h, CurrentThread.cc): a thread with its
--   name, what may be done with it and in which order, and the id that it keeps. Thread.antt,
--   CurrentThread.antt.
-- * EventLoopThreadPool (EventLoopThreadPool.h, EventLoopThreadPool.cc): the loops that share the
--   connections. EventLoopThreadPool.antt.
-- * TcpServer (TcpServer.h, TcpServer.cc): the table of connections by name. TcpServer.antt; its
--   invariant `IsTable` of TcpServer/Table.antt lists the open connections, and
--   TcpServer/Constructed.antt has the constructor with its acceptor. Lifecycle.antt has the
--   server together with its connections and the queues of all loops: a connection comes in, is
--   served through `handleEvent` of its channel or by a call of the program, or a loop calls one of
--   the functors of its queue; Lifecycle/Phases.antt has the phases of a
--   connection. There the destructor of the server does not run, the program's
--   callbacks do nothing, and nobody sends from another thread.
-- * Acceptor (Acceptor.h, Acceptor.cc): the listening socket. Acceptor.antt, over the operations of
--   Socket.antt.
-- * Socket (Socket.h, Socket.cc): the system calls on a descriptor. Socket.antt.
-- * Timestamp and Logger (Timestamp.h, Timestamp.cc, Logger.h, Logger.cc): the lines of the log.
--   Timestamp.antt, Logger.antt; Logger/Race.antt has two threads that log at once.
-- * EchoServer (example/EchoServer.cc): a program that uses the library. EchoServer.antt.
-- * InetAddress (InetAddress.h, InetAddress.cc): addresses and their text. InetAddress.antt, with the
--   functions of the C library as the interface `Network`.
-- An acceptor hands each new descriptor to the server, the server makes a connection of it and gives it
-- to a loop of the pool by `runInLoop`, the loop's poller finds the connection's channel ready, and
-- the channel calls the connection's handlers, which read and write through its buffers. A
-- connection that closes calls the server back, which takes it out of its table.
--
-- How the code is read:
-- * Bytes, descriptors, addresses and masks are natural numbers. Sums and differences of `size_t` are
--   `add_size` and `sub_size`, which wrap at 2 ^ 64; the largest vector has `max_size` bytes.
-- * `none` is the end of the process or undefined behaviour: an access outside an array, an exception
--   that nothing catches, LOG_FATAL.
-- * System calls (`readv`, `write`, `getsockopt`, epoll) are functions that the operations take, with
--   what their manual pages promise as hypotheses: `ReadsWithin`, `WritesWithin`, the laws of `Epoll`.
--   Callbacks are functions on the state, arbitrary unless a theorem names them.
-- * In the components other than Logger the log output is left out, except where an error is reported
--   and nothing else is done.
--
-- Recursion is on lists and numbers, and needs fuel in two places. `decimal` of Prelude/Decimal.antt has
-- as much as the number and one more, since no number has more digits; the calls that empty the
-- queues in Lifecycle/Runs.antt have the `weight` of the queues, which every call lowers.
--
-- Not modelled: the destructor of EPollPoller, which closes the epoll descriptor; the formatting that
-- snprintf does for the log macros, noncopyable, the build files and what they generate.
pub mod Prelude
pub mod Syscall
pub mod Buffer
pub mod Channel
pub mod CurrentThread
pub mod Epoll
pub mod Poller
pub mod Timestamp
pub mod Logger
pub mod Thread
pub mod TcpConnection
pub mod EventLoop
pub mod EventLoopThreadPool
pub mod TcpServer
pub mod InetAddress
pub mod Socket
pub mod EchoServer
pub mod Serving
pub mod Lifecycle
pub mod Acceptor
pub mod EventLoopThread
