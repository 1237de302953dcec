-- ===== src/Lib.antt =====
-- uvudt: UDT, a reliable transport over UDP, for libuv programs.
--
-- The core of the repository is the C++ library in UDT4/src. A connection (udt_core.cpp) numbers its
-- packets with circular sequence numbers, builds and authenticates packets, keeps the numbers that
-- were lost at either end, matches ACK-2 packets with the ACKs it has sent to measure the round trip
-- time, and is scheduled for sending by a heap that all connections of a UDP port share. Programs
-- wait for events of several connections with polls. This library models these parts, and
-- what the connection does with them:
--
-- - Common: shared names, tests on numbers, C integers (Common.Int), arrays as functions and
--   wrapping indices.
-- - Seqno: CSeqNo, CAckNo and CMsgNo of UDT4/src/common.h, with the constants of
--   UDT4/src/udt_core.cpp. All operations are instances of those of Seqno.Circular, which take the
--   threshold and the maximum. Order is about comparison and distance, Steps about increments, and
--   Bounds about the range of the results.
-- - AckWindow: CACKWindow of UDT4/src/window.cpp. `store` and `acknowledge` are the methods, found,
--   missing, reset and first_match are parts of `acknowledge`. Contents is the abstract view, a
--   bounded history of ACKs from old to new, to which Store and Acknowledge relate the methods.
-- - SndUList: CSndUList of UDT4/src/queue.cpp, a binary heap of connections by sending time.
--   insert_node and remove_node are `insert_` and `remove_`, and sift_up and sift_down their loops,
--   which run on as much fuel as the heap has entries. Up and Down are about these loops, Insert and
--   Remove about the operations. `packData` of a connection is an argument of `pop`. The locks and the
--   waking of the sender's thread are counted and not run.
-- - RcvLossList and SndLossList: CRcvLossList and CSndLossList of UDT4/src/list.cpp, which keep
--   ranges of numbers in linked lists within arrays. They use Seqno. Chain says what the links of a
--   list lead through, and the ranges are the abstract view. The loops run on the size of the
--   arrays as fuel, and `none` is a loop that does not end; a chain has no more nodes than the
--   arrays have places.
-- - RcvBuffer: CRcvBuffer of UDT4/src/buffer.cpp as it serves streams. `read_units` is the loop of
--   `readBuffer`, on more fuel than the ring has slots. Stream has the abstract view, the bytes that
--   wait for the reader, Ring is about sizes and arriving units, and Acked about acknowledged ones.
--   Of the unit queue that units come from and go back to, the count and the freed units are kept.
-- - SndBuffer: CSndBuffer of UDT4/src/buffer.cpp, a circle of blocks that grows. `read_data` and
--   `read_data_at` are the two `readData`. Ring is the abstract view, three runs of blocks; Grow, Add
--   and Read are about the methods. `grow` runs on one step more than there are blocks to hold, and
--   each step adds a block or more.
-- - PktTimeWindow: CPktTimeWindow of UDT4/src/window.cpp; `std::nth_element` is a parameter. Median is about the
--   filter of the estimates.
-- - Connection: CUDT of UDT4/src/udt_core.cpp while it is connected, over the parts above. Control is
--   `sendCtrl`, Dispatch `processCtrl`, with its cases in Acks and Reports, Receive is `processData`,
--   Pace `packData` and Timers `checkTimers`. Wire reads and writes payloads. What leaves the
--   connection is written to a log: packets, wake-ups, events for polls and counters. Sending numbers
--   the blocks of the send buffer, and Resending, Feedback and Progress build on it; InOrder, Deliver
--   and Transfer follow packets to the reader, Refuse and Security those that are not taken. The loop
--   over a loss report runs on as much fuel as the report has words.
-- - UnitQueue and Hash: CUnitQueue and CHash of UDT4/src/queue.cpp. The search for a free unit runs on
--   as much fuel as there are entries, since it stops where it began.
-- - Packet: CPacket of UDT4/src/packet.cpp on the header's words: `pack`, the readers, and setMAC and
--   chkMAC over any digest function (MD5 of UDT4/src/md5.cpp is third-party code and an argument).
--   Packet.Handshake: CHandShake, written to and read from words.
-- - Epoll: CEPoll of UDT4/src/epoll.cpp for Linux. What epoll_create, epoll_ctl and epoll_wait return
--   and the clock are arguments; `wait` takes the list of the rounds of its loop. Sets is std::set,
--   Quiet the states that calls can reach, Update and Wait the events.
-- - United: CUDTUnited of UDT4/src/api.cpp, the table of all sockets of a program. A pointer to a
--   socket is its number, and Types has the heap of objects that the pointers lead to. Entity and
--   EntityClose have what the table calls of CUDT (udt_core.cpp), Address CIPAddress of common.cpp,
--   Muxes `updateMux`. Calls, Connecting, Closing, Queries and Select are the calls of the
--   application, and Api the functions that turn their exceptions into return values;
--   Incoming is `newConnection`, Accepting `accept`, and Collector the garbage collector. Each call
--   runs as a whole, and a call that waits (`accept` for a connection, `close` for the data to leave)
--   gives `waits`. Of the locks only the one that `accept` leaves locked is in the state: `accept` and
--   `close` of the listener wait for it, while `newConnection` and the collector, which would wait
--   too, are followed only where it is not locked. The exchange of handshakes of a connecting socket,
--   the opening of a channel and the clock are arguments. Status, Steady and the Status files are about
--   the statuses of sockets, MuxUsers, MuxCount, MuxDrop and MuxRemove about reference counts, Buried
--   about the queue of a listener that is removed, Selecting about `selectEx`, Accept
--   and Requests about the queues of listeners, Closed, ApiClosed and Collect about closed sockets;
--   Heap and View say what a change of one socket leaves of the others. The last loop of the
--   collector is given the clock of each of its rounds.
--
-- A method that changes an object takes the object and returns the new one. An `int` is an integer
-- without bounds, and unsigned words wrap explicitly.
--
-- Not modelled: the exchange of handshakes of a connecting socket, options and the blocking calls
-- of a connection (udt_core.cpp), which wait on locks; the start and the stop of the collector,
-- and the functions of the namespace UDT, which forward calls (api.cpp); files and the reading of
-- messages in buffer.cpp; the receiver lists and threads of queue.cpp, the cache (cache.cpp,
-- cache.h) and congestion control (ccc.cpp), which computes with doubles and is a parameter of the
-- connection; the channel, the timers and locks (channel.cpp, common.cpp), which are calls of the
-- operating system; the C interface and the libuv binding (UDT4/src/udtc.cpp, uvudt.c,
-- udtstream.c), which forward calls.
pub mod AckWindow
pub mod Common
pub mod Connection
pub mod Epoll
pub mod Hash
pub mod Packet
pub mod PktTimeWindow
pub mod RcvBuffer
pub mod RcvLossList
pub mod Seqno
pub mod SndBuffer
pub mod SndLossList
pub mod SndUList
pub mod UnitQueue
pub mod United
