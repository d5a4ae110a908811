-- ===== src/Lib.antt =====
-- A model of zg_choir's replicated databases, and of the code that carries them between peers.
--
-- The program keeps identical copies of some databases on every peer of a system. One peer is the
-- senior: it runs each request, logs it as an update, and multicasts the update. The others are
-- juniors: they run the updates in the order of their ids, ask the senior for those that they miss,
-- and ask for the whole database where that does not work.
--
-- Parts and files:
--   * Peer: `ZGPeerID` (include/zg/ZGPeerID.h), with its order.
--   * Update: `PZGDatabaseUpdate` (src/private/PZGDatabaseUpdate.cpp), with its two forms of payload.
--   * Replica: `PZGDatabaseState` (src/private/PZGDatabaseState.cpp) and the calls of
--     `ZGDatabasePeerSession` (src/ZGDatabasePeerSession.cpp) that reach the database object.
--     State has the fields, Log the update log and its tallies, Senior `HandleDatabaseUpdateRequest`
--     and `SeniorUpdateCompleted`, Junior the `JuniorExecute...` methods and the back-orders, Rescan
--     `RescanUpdateLog`, Exchange what is left. Invariant, Books, Follow, Trim, Converge, Multicast
--     and Resend are proofs.
--   * Session: `ZGPeerSession` (src/ZGPeerSession.cpp): the guards on incoming messages, outgoing
--     requests and messages, changes of the senior peer, and the beacon.
--   * Network: `PZGNetworkIOSession` (src/private/PZGNetworkIOSession.cpp): unicast sends on the main
--     thread, and the filter on incoming multicasts of its internal thread. Orders is `PZGUnicastSession`
--     (src/private/PZGUnicastSession.cpp): the back-orders over one connection, where the calls of
--     its master are recorded and not run.
--   * Wire: the `Flatten` and `Unflatten` methods of updates, beacons, back-order keys, peer ids and
--     heartbeat packets (src/private/PZG*.cpp and include/zg).
--   * Heartbeat: the heartbeat thread, `PZGHeartbeatThreadState` (src/private/PZGHeartbeatThreadState.cpp),
--     and `PZGHeartbeatSession` (src/private/PZGHeartbeatSession.cpp). State has the fields, Sources the
--     sources of packets that it knows of, Election the order of the peers, Clock the network's time,
--     Traffic incoming packets and the report to the main thread, Frame and Send the outgoing
--     datagrams and the pulse, Members the main thread's table of peers. Index, Online, Measured, Steady,
--     Pulse, Expiry, Kingmaker, Seniority, Roster, Departed and Heard are proofs.
--   * Averager: `ZGTimeAverager` (src/clocksync/ZGTimeAverager.cpp), of which each source has some.
--   * Choir: three databases of the choir demo: `NoteAssignmentsMap` (demos/choir/NoteAssignmentsMap.cpp)
--     in Assignments, with its notes in Notes and its updates in Review, `PlaybackState`
--     (demos/choir/PlaybackState.cpp) in Playback, and `MusicSheet` (demos/choir/MusicSheet.cpp) in
--     Sheet. Running, Archive, Reviewed, Updated, Shift and Closing are proofs. A chord is the number
--     whose bits are its notes.
--   * Undo: `UndoStackMessageTreeDatabaseObject`
--     (src/messagetree/server/UndoStackMessageTreeDatabaseObject.cpp), over the dispatch of
--     `MessageTreeDatabaseObject`. Sequences has the stacks and the commands that begin and end a
--     sequence, Trim what is forgotten, Travel and Move an undo or a redo, Step the commands, Record
--     what the senior records of the changes of nodes (src/messagetree/server/MessageTreeDatabaseObject.cpp)
--     and what a junior does with it. Order, Kept, Nesting, Trimming, Moving, Replay, Updated, Back,
--     Turns, Recorded and Restored are proofs.
--   * Mux: `MuxTreeGateway` (src/messagetree/gateway/MuxTreeGateway.cpp). Filters has the filter that
--     is sent upstream, Subscribe and Unsubscribe the subscriptions, Notify the updates of nodes.
--     Rollback, Leftover and Picture are proofs.
--   * Table, Assoc, Base: sorted tables for `OrderedKeysHashtable`, tables in insertion order for
--     `Hashtable`, lists, options and 64-bit arithmetic.
--
-- How they correspond: a C++ object is a record, a method that changes it is a function to the new
-- record, and a status is returned beside it. A reference that may be null is an Option. A shared
-- update that the code changes after it is logged is replaced in the log too. What a database asks
-- of its session is the record Master; what it sends is appended to `multicasts` and `orders`.
-- The application's database object is the record DatabaseObject, with what
-- include/zg/IDatabaseObject.h asks of it as IsLawful. MUSCLE's messages, compression, integer
-- encodings and sockets are the parameters Platform, Codec, Network and the connect function; its
-- deflation, sort and saturating arithmetic are Zlib, Sort and Arithmetic, its three-way comparison and
-- its test of an address Muscle. Its comparison of two tables and the time at which a socket sends are
-- functions that the pulse takes, and what the choir takes in floating point or from a checksum of
-- MUSCLE's are functions too. A network address is a number.
-- What MUSCLE does with an update of a node is the function `apply`, with `LeavesStacks` as what is
-- relied on, or that of a Store of nodes, with IsStore; the log of updates, as the undo stack asks for it, is the record Log. MUSCLE's path
-- matchers are the record Paths, and whether a call upstream succeeds is the function `network`.
-- Subscribers and filters are the numbers of their objects.
--
-- Bounds: the trimming loops have the length of the log as fuel, since each round removes an entry.
-- `catch_up` has one round for each state between the local and the target state, and
-- `order_missing` one for each id that it visits. The averager's `make_room` needs one round more than
-- there are measurements; a source gives it 21, for 20 measurements. The choir's `while(true)`, which
-- balances the notes of its peers, is taken for any number of rounds, and its end is not shown.
-- Counters of 64 and 32 bits wrap round as in the source; the loop variable of `order_missing` does
-- not, and update ids stay below 2 ^ 64 - 1 there.
--
-- Not modelled: failures of memory allocation, logging and printing, text commands, the nesting
-- counters that tell a database which context it runs in, the pulse timing of the main thread, the
-- loop of the heartbeat thread around its sockets and its answers to time-sync pings, discovery,
-- the client connector, the rest of the message tree and of its gateways, and the rest of the demos.
-- The names of the nodes of sequences are left out, and so are patterns in a client's key: the redo
-- stack is cleared by a path that MUSCLE matches as a pattern. The getters that
-- cache a converted payload are modelled by the value that they return, and the cached forms by
-- functions of their own.
pub mod Base
pub mod Table
pub mod Peer
pub mod Platform
pub mod Update
pub mod Replica
pub mod Session
pub mod Wire
pub mod Network
pub mod Assoc
pub mod Averager
pub mod Heartbeat
pub mod Choir
pub mod Undo
pub mod Mux
