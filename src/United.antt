-- ===== src/United.antt =====
-- CUDTUnited of UDT4/src/api.h and UDT4/src/api.cpp: the sockets by their number, the multiplexers
-- that they share, the calls of the application, and the garbage collector. The state is passed
-- along. A pointer to a socket is the number of the socket, and `heap` holds what the pointers point
-- to, since the source keeps one object in two maps for a while. A map is an association list, and
-- a set an ordered list without repetitions.
pub mod Maps
pub mod Types
pub mod Address
pub mod Entity
pub mod EntityClose
pub mod Muxes
pub mod Lookup
pub mod Calls
pub mod Connecting
pub mod Closing
pub mod Queries
pub mod Select
pub mod Api
pub mod Incoming
pub mod Accepting
pub mod Collector
pub mod Heap
pub mod Status
pub mod StatusSteps
pub mod StatusCalls
pub mod StatusConnect
pub mod Steady
pub mod StatusHeld
pub mod StatusRuns
pub mod MuxUsers
pub mod MuxCount
pub mod MuxDrop
pub mod Buried
pub mod MuxRemove
pub mod Accept
pub mod Requests
pub mod Selecting
pub mod Collect
pub mod View
pub mod Closed
pub mod ApiClosed
mod Tests
