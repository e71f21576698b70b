-- ===== src/Lib.antt =====
-- A verification library for the server library: TCP and UDP servers and clients over libev, a common
-- server that cuts streams into packets, and the proxies of test/.
--
-- Parts and files, with the code that each models:
--   Socket            isocket.h, the key of a client, and its order (Socket/Order)
--   OutputBuffer      outputbuffer.h, `COutputBuffer`; the bytes still to write (OutputBuffer/Pending)
--   Framing           the packet loop of commonserver.cpp, `__AddContent`, which test/tcpproxy.cpp
--                     repeats: its rounds, and what it does to a stream of packets
--   Tcp/Connection    `CTcpConnection`: `send`, `close`, `io_callback`, `timer_callback`
--   Tcp/Channels      `CSocketInfoChannel` and `CSocketInfoManager`: `add`, `get`, `remove`
--   Tcp/Server        `CTcpServer`; its virtual members are the record `Virtual`, which the common
--                     server fills again; Tcp/Server/Loop and History are over any such server
--                     (Passing: what any of them does to a client's bytes; Answer: a data handle
--                     that answers by `Send`, such as an echo; Reuse: what `CloseClient` leaves
--                     behind)
--   Tcp/Client        `CTcpClient`, with reconnection
--   Common/Threads    `CPktHandleThread`: `work` is a step of `HandlePkt`
--   Common/Server     `CCommonServer`: contents, dispatch to threads, the overridden members; Turns: the
--                     server and its threads, step by step; Destroy: the body of its destructor; Echo:
--                     test/tcpcommonechoserver.cpp
--   Udp               `CUdpServer` and `CUdpClient`; Udp/Echo: test/udpechoserver.cpp
--   Echo              test/tcpechoserver.cpp and test/udpechoserver.cpp: their command line, and their two
--                     servers in two threads
--   Interfaces        iserver.h, iclient.h and the factories
--   SigHandle         sighandle.h: the static handler, the loop it is set to, and which `Start` reaches it
--   Arguments         what the programs of test/ do to the text of an argument: `atoi`, and `ip:port`
--   Proxy             test/tcpproxy.cpp and test/udpproxy.cpp: the header with the client in each packet;
--                     Main and UdpMain: their command lines, their pools, and what reaches them
--   Bench             the load generators of test/, over TCP and, in Bench/Udp, over UDP: the clients, the
--                     rounds they count, and when the loop ends; Bench/Programs has what the accounting
--                     asks of either; Main: the command line
--   Tests             the theorems at concrete inputs
--   Prelude           shared notation, integers, machine words, runs that may throw, ordered maps
--
-- How the code corresponds. A member function is a function of the same name, in snake case, on a
-- record of the object's members. What libev reports and what the system calls return are arguments
-- (`Wakeup`), and what the object tells its data handle and the system goes into a log or a list of
-- calls. A connection calls its server back by that list, and the server runs it (`run_calls`). A data
-- handle is a number: `none` before it is set. A TCP server whose own members call it then ends in a
-- fault; of the packets of a common server without threads, of clients and of UDP objects the log has
-- the call to `none`. A call that is put off by `std::tr1::bind` is the pair of its arguments in
-- `functions`. Faults are `std::out_of_range`, `std::bad_alloc`, an access outside an array, a null
-- pointer, a pointer that was never set, a division by zero, and the model's own end of fuel.
--
-- Threads. What a spinlock or a mutex guards is one step, and a history is a list of such steps in any
-- order. The event loop of one object has one thread. What a data handle calls from within a callback
-- counts as called after it.
--
-- Bounds. `int` arithmetic on lengths and times wraps at 32 bits (Prelude/Words); sizes of containers
-- are natural numbers. The packet loop has fuel for a round for each byte and one for the last test;
-- a round takes five bytes or more, so it is enough, and the fault `out_of_fuel` is excluded by
-- the results.
--
-- Not modelled: the destructors that only free memory, that of `CTcpServer`, which destroys the manager
-- and so closes the sockets of all the connections that are left (it runs after the body of
-- `~CCommonServer`, which is modelled), the event loop itself (libev, whose headers ev/ holds), the
-- lifetime of a connection object beyond its entry in the channels, and, of the programs in test/, the
-- printed reports, the log lines, and a load generator with a negative count.
pub mod Arguments
pub mod Bench
pub mod Common
pub mod Echo
pub mod Framing
pub mod Interfaces
pub mod OutputBuffer
pub mod Prelude
pub mod Proxy
pub mod SigHandle
pub mod Socket
pub mod Tcp
pub mod Tests
pub mod Udp
