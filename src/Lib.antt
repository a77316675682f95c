-- ===== src/Lib.antt =====
-- A replicated key-value store on the Raft consensus algorithm, in C++.
--
-- A cluster is a fixed set of servers. Each keeps a log of operations (smr_log), of which the first
-- commit_length are applied to customer_record. A candidate asks the others for their votes
-- (RequestVote), a leader sends its log to them one entry at a time (ReplicateLog), and each server
-- answers the two kinds of request (GetVoteResponse, GetLogResponse).
--
-- Words and Words/RoundTrip: htonl, ntohl and memcpy of an int in Messages.cpp, on buffers of bytes.
-- Messages: a module for each class of Messages.h, with its constructor (init), Size, Marshal,
--   Unmarshal and IsValid. A field that a constructor leaves unset keeps what the memory held.
--   Codec is what the classes have in common, and Kinds lists them.
-- Address: the text of an address in LeaderInfo (GetIp, ParseIp, SetLeaderInfo of Messages.cpp), with
--   its proofs in RoundTrip and Short.
-- Metadata: ServerMetadata of ServerMetadata.h as a record, and the methods of ServerMetadata.cpp
--   that use no socket, in the modules below it: Log (AppendLog, ExecuteLog, DropUncommittedLog),
--   Append (GetLogResponse), Vote (GetVoteResponse, WonElection, InitLeader, SetAckLength), Commit
--   (CommitLog) and Membership (AddNeighbors, CleanNodeState, the map node_socket). Invariant holds
--   what is true of a server between two operations, and Grown is about the entries of the log.
--   Proofs stand in the children of each.
-- Rpc: the methods of ServerMetadata.cpp that use sockets, over Transport, an interface of what they
--   use of ClientSocket: Election (RequestVote), Replicate (ReplicateLog), Reconnect (InitNeighbors,
--   TryReconnect). Replicate/Leads, Replicate/CatchUp and Metadata/Append/Prefix follow one leader and one
--   server to which it replicates, which answers by GetLogResponse; Factory/Replicated joins them with
--   LeaderMaintainLog. Fuel for twice as many rounds as entries is enough there.
-- Sockets: Socket, ServerSocket and ClientSocket over the system calls, which are parameters. Stream
--   is what is relied on of send and recv; Writes, Reads and Delivery are the loops of Send and Recv
--   and a message from one end to the other. Fuel for as many rounds as there are bytes is enough.
-- Stub: ServerStub of ServerStub.cpp, over Transport.
-- Factory: LaptopFactory of ServerThread.cpp: the handlers, the queue of orders and the round of each
--   thread. Threads interleaves them: a step is what a thread does between two points at which it
--   takes a lock or waits, and Change is what a step does to the server's state. Orders, Peers and
--   Customers are about one handler each. Engineer is EngineerThread with the loops of ServerHandler
--   and CustomerHandler, after so many rounds, between which the other threads run.
-- Client: ClientStub of ClientStub.cpp and ThreadBody of ClientThread.cpp; Client/Timer is
--   ClientTimer of ClientTimer.cpp over an abstract type of durations, and Client/Run the arguments and
--   the sum of the timers in ClientMain.cpp.
-- Main: the arguments of ServerMain.cpp, the listening socket and the state that is made of them;
--   Main/Server joins it with the connections to the peers and the threads.
-- Voting: the vote that a server holds in a term, through GetVoteResponse and GetLogResponse.
-- Tests and the modules below it: concrete runs, and the theorems at concrete servers and messages.
--
-- An int is a signed integer. A sum of ints that does not fit in 32 bits, a read or write out of the
-- bounds of a vector or an array, and an access through a pointer that was not set are undefined
-- behaviour, and a model function returns none for them. Differences such as prefix_length - 1 are
-- taken exactly where the test before them keeps them in range. On the wire an int is the four bytes
-- of its two's complement, the highest first. Sets and maps of ints, which the program never iterates
-- over, are lists without an order; node_socket is kept in the order of its keys, the addresses of the
-- nodes. The loop of ReplicateLog takes fuel, and has a third result for a loop that has not ended
-- within it; its random number is drawn from [1, 1] and is 1.
--
-- In Factory, what a thread reads of the state without meta_lock, it reads at one moment. When a wait
-- of TimeoutThread ends is not modelled: its rounds come at any time.
--
-- Not modelled: the creation of threads, the accept loop, the
-- statistics of the timer, the parts of LaptopFactory that nothing uses
-- (FollowerRequest, its queue and locks), and what the program prints.
pub mod Prelude
pub mod Words
pub mod Messages
pub mod Metadata
pub mod Address
pub mod Sockets
pub mod Rpc
pub mod Stub
pub mod Factory
pub mod Client
pub mod Main
pub mod Voting
pub mod Tests
