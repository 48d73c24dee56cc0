-- ===== src/Lib.antt =====
-- The servers of this repository, and the queues that its threads share.
--
-- IO/reactor is an edge-triggered epoll server: an event loop (`server_reactor::run`) reports ready
-- descriptors to the callbacks of their connections, `recver` appends what it reads to the input
-- buffer of the connection and hands the buffer to the callback of the application, and `writer`
-- sends the output buffer. The application is `cal_IO` of IO/reactor/test.cc: it cuts the input into
-- messages, reads a request of each, evaluates it and appends the encoded response.
--
-- The servers of IO/select_server, IO/poll_server and IO/epoll_server have no buffers: they read a
-- line, hand it to the callback and write the answer. The queues of thread_t hand items from producer
-- threads to consumer threads, and share nothing with the servers. The shell of MyShell, redirection
-- and pipe_t/MyShell cuts a line in place and runs its commands behind pipes. http_t answers each
-- chunk that it reads as one request for a file; tcp_t/protocol_cus serves the calculator, and
-- tcp_t/test echoes, both with a thread for each client. udp_t/chatroom_udp sends each datagram of a
-- member to all members, and udp_t/shell_udp and udp_t/dict_udp answer each datagram to its sender.
-- signal_t blocks two signals and lets them through from time to time.
--
-- Which file models what:
--   Base (Tests, Lists, Text, Int): tests, lists and C strings as lists of bytes, `int`.
--   Cal: IO/reactor/cal.hpp. `calculator` is `calserver::operator()`, `none` where `int` overflows.
--   Protocol/Frame: `decode`, `encode` and `recvmessage` of IO/reactor/protocol.hpp.
--   Protocol/Decimal: `std::to_string` and `std::stoi` on `int`.
--   Protocol/Message/Text, Protocol/Message/Json: `serialization` and `deserialization` of `request`
--     and `response`, as `MYSELF` selects them; Protocol/Message/Codec is what both promise.
--   Service/Calculator: `cal_IO`, with either translation.
--   Reactor/Connection, Reactor/Manager: `connection` and `conn_manager` of
--     IO/reactor/reactor_server.hpp. A pointer to a connection is its descriptor, and a dangling one
--     is a descriptor that the map does not hold.
--   Reactor/Kernel: the answers of `read`, `write`, `accept` and `epoll_wait`, as lists.
--   Reactor/World: the state of `server_reactor`, with a trace of its system calls.
--   Reactor/Server, Reactor/Loop: its handlers, `dispatcher` and `run`.
--   Reactor/Setup: `init`, with tcp_sock.hpp, epoller.hpp, util.hpp and error.hpp of IO/reactor.
--   Multiplex/Call, Multiplex/Slots: the system calls and the array of descriptors of the servers of
--     IO/select_server, IO/poll_server and IO/epoll_server, which answer each line on its own.
--   Multiplex/Select, Multiplex/Poll, Multiplex/Epoll: `select_server`, `poll_server` and
--     `epoll_server`; Multiplex/Sock: the opening of their socket in sock.hpp.
--   Threads/RingQueue: `ring_queue` of thread_t/ring_queue, Threads/OutBlockQueue: `out_block_queue`
--     of thread_t/thread_pool, and Threads/BlockQueue: `block_queue` of thread_t/block_queue, each with
--     any number of threads that call `push` and `pop`. `pop` returns a reference: a step binds it to
--     an item, and gives no value; reading it is a step of its own where it is defined, in
--     `ring_queue`. Threads/Label is what a step does to the queue that the callers see.
--   Http/Request, Http/Answer: `httpRequest::parse` of http_t/protocol_http.hpp, `Get` of
--     http_t/server_tcp.cc, `util` of http_t/util.hpp and `serviceIO` of http_t/server_tcp.hpp. The
--     files are a function from names to contents.
--   Chat/Users, Chat/Room: `users` of udp_t/chatroom_udp/users.hpp, `shellServer` of udpServer.cc and
--     `udpServer::start` of udpServer.hpp there.
--   Udp: `udpServer::start` of udp_t/shell_udp/udpServer.hpp (udp_t/dict_udp holds a copy), with
--     `shellServer` and `dictServer` of udpServer.cc in the two directories.
--   Signals: `blocksignal`, `cancelblock`, `showpending` and `main` of signal_t/signal_t.cc.
--   Dict: `dict` of IO/reactor/dict.hpp (udp_t/dict_udp and IO/select_server hold copies of the file),
--     `dict_handle` of IO/reactor/test.cc and `handle_request` of IO/select_server/test.cc.
--   ProcPool: `ApplyChidProcess`, `ChildProcess` and `AllocTask` of pipe_t/procpool/procpool.cc.
--   Shell: `Pipe_Check`, `Redir_Check` and `Command_Analysis` of pipe_t/MyShell/myshell.c, with
--     Shell/Strtok for `strtok`; Shell/Process: `Child_Process`, `Pipe_Process` and `main`;
--     Shell/Older: `main` of MyShell/myshell.c and of redirection/MyShell/myshell.c.
--   Tcp/Receive, Tcp/Session: `recvmessage` of tcp_t/protocol_cus/protocol.hpp and `calserverIO` of
--     server_tcp.hpp there; Tcp/Client: `calclientIO` of client_tcp.hpp. A message is answered as in
--     Service/Calculator.
--   Tcp/Shared: the calls of that `recvmessage` in one process, which share its static buffer.
--   Tcp/Threaded: `run`, `threadservice` and `serviceIO` of tcp_t/test/server_tcp.hpp.
-- The other files hold the theorems; Tests files hold the code run on concrete inputs.
--
-- Bounds and fuel: `cal_io` takes one step of fuel more than the input has bytes, and each message
-- takes two bytes at least. The loops of the shell take one step more than the text has bytes.
-- `digits` takes one step more than the number, `calserver_io` one more than
-- there are reads, `load_lines` one more than the file has bytes, and `read_lines` one more than the
-- output has bytes. The handlers of the server recur
-- on the answers of the kernel; a list that ends goes on with `EAGAIN`. What C++ leaves undefined, and
-- an exception that nothing catches, is an outcome of its own (`Fault`, `none` or `broke`), never a
-- value.
--
-- The positions of `ring_queue` are `size_t`, and its theorems are about fewer than 2 ^ 64 - 2 stores.
-- An interleaving is a list of steps of any length, so the queues have no fuel. The accesses to
-- `out_block_queue` are under two mutexes: where one begins during another it is undefined, and a run
-- has no such step. Whether `epoll_ctl` adds a new descriptor is part of the answer to `accept`. The
-- order in which pending signals are delivered is an argument.
--
-- Not modelled: the log and the printing of equations; shm_t, stack_s, the pipes of pipe_t and the
-- exercises of thread_t, which try out one system call after the other; the workers and GetInstance
-- of the thread pool; the udp and echo clients, which send a line and print the answer; jsoncpp,
-- which is a parameter (`JsonLib`) with the laws that a value put under a key is read back and that
-- a document is one line without '\r';
-- the kernel, whose answers are arbitrary.
pub mod Base
pub mod Cal
pub mod Protocol
pub mod Service
pub mod Chat
pub mod Dict
pub mod Http
pub mod Multiplex
pub mod ProcPool
pub mod Reactor
pub mod Tcp
pub mod Threads
pub mod Udp
pub mod Signals
pub mod Shell
