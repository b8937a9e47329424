-- ===== src/Lib.antt =====
-- A verification library for the game server framework of this repository: a gate that holds the
-- clients' connections, zone servers that hold the players, and the channels between them.
--
-- The parts of the program and the files that model them. A function keeps its name, in lower case.
--   Knapsack (rgtd/zone/logic/PlayerKnapsackLogic.cpp): a player's pack. The state is the message
--     RolePackage; an operation gives the pack, the returned number and the events it fires.
--     Below it: Held (how many pieces there are), Tidy (the invariant), Fill, Place and Put
--     (PutItem), Take, Noted, SwapOut and Remove (RemoveItem).
--   Timer (component/TimerMgr.cpp): the timers of a server. The state is the record TimerMgr; what
--     a callback does to the manager while Expired runs is a list of requests. Below it: Sorted
--     (the multimap), Expiry (the loop ends) and Firing (which callbacks run).
--   Channel (app/ChannelMsgProxy.cpp, app/ChannelProxyDispatcher.cpp and parts of
--     channel/ChannelAgentMgr.cpp): the table of channels, the frames that go to other servers and
--     the table of handlers for what comes in. Below it: Handlers, Ids and Frames.
--   Gate (gate/GateServerHandler.cpp): the clients' connections. The state is the record Gate, with
--     the vector of connections, the map from sockets to indices, its counters, the channels, the
--     timers and the list of what it did to sockets and channels. Below it: Connection, Server
--     (the table and the reports to zone servers), Client (what a client's message does),
--     Receive (connect, receive, close) and Closing (the idle check and the shutdown); the proofs
--     are in Table (GetNextIdx), Removal (RemoveConnection), Shutdown, and Reports, Cutting, Pieces,
--     Posting, Framing and Broken (OnClientDataRecv). Sound is the invariant of the table of connections: below
--     it Sending, Removing, Messages, Receiving, Slots and Opening, Reachable (the steps of a gate)
--     and Found (GetConnectionByFD). GateMsg holds the messages of proto/gate.
--     Agent is gate/GateAgentChannelMsgHandler.cpp, what a gate does with a message of a zone server,
--     and Delivery what then reaches the client. GateMsg also takes a message apart (`unpack`, below
--     it Unpacked), as both that file and OnGateMessage of rgtd/zone/ZoneAgentMgr.cpp do.
--   Events: the event codes of rgtd/zone/logic/EventCenter.h. EventCenter
--     (rgtd/zone/logic/EventCenter.cpp): events for players, at once or delayed by a timer; the state
--     is the record EventCenter. Below it: Delays.
--   AutoSync (rgtd/zone/logic/PlayerAutoSyncDBLogic.cpp): the event that is to save a role every 300
--     seconds. Below it: Lost.
--   Task (rgtd/zone/logic/PlayerTaskLogic.cpp): a player's tasks, the list `doing` of RoleTaskInfo.
--     Below it: Checked (OnEvent against the check of each task) and Progress.
--   LogicCenter (rgtd/zone/logic/PlayerLogicCenter.cpp): the map of a player's logics by name, and which
--     of them an event goes to. Below it: Registered.
--   Zone (rgtd/zone/ZoneAgentMgr.cpp, rgtd/zone/ZoneAgent.cpp, rgtd/zone/DBProxy.cpp and the files
--     SessionMgr, Session and LoginLogic of rgtd/zone/account, with rgtd/zone/logic/CSMsgDispatcher.cpp
--     and rgtd/zone/cs_handler/CSMsgHandler.cpp): the sessions of a zone server. The state is the record
--     World: the zones with their tables of sessions, the sessions by address, the coroutines that
--     wait and what was done outside. Below it: RoleId, World, Session, Login (a coroutine runs to its
--     next wait, and resume_role takes it on), SessionMgr and Messages; the proofs are in Send (what
--     a session sends), Saving (the tries of a logout), Stale (the close of a gate), Kept, Primitives,
--     Keeping, LoginKeeping, Answers, Tables and Reachable (the invariant), Total, Stopping and
--     Faults (null pointers), Relogin and Dangling (the role of a player who logs in again). RoleHandler is rgtd/zone/cs_handler/CSRoleHandler.cpp, and Roles
--     shows that it is a handler as those proofs take them.
--   ShareMemory (datacenter/ShareMemoryCenter.cpp): the modules in a block of shared memory that outlives
--     the process. The state is the record Center: the registered modules, the block with its header, the
--     header's entries and the bytes behind it, and the notifiers' calls. Below it: Init, Registered, Appending
--     (AppendRegModules), Attaching (AttachAllModules), Starting, Restart, Growing and Recovery (Init), Regions
--     (GetModleBuffer) and LongNames.
--   Cache (datacenter/CacheAgent.cpp): objects in a Redis cache. The state is the record CacheAgent, with
--     the listeners and the stored objects. Dispatch is DispatchResult; the proofs are in Answered
--     (the callback and its reply), Lost (FindObject) and Delivered (a GET over the agent of Redis).
--   Redis (datacenter/RedisAgent.cpp): the commands that wait for Redis. The state is the record
--     RedisAgent, with the waiting commands by id and what the listener was told. Below it: TimeOut, Answer
--     (a command and its reply) and Runaway (CheckTimeOut).
--   Prelude, Bytes and Repeated: what the parts share. Map stands for unordered_map, Words for the
--     machine's integers, Strings and
--     StringMap for strings and maps with string keys, Bytes for network order and memcpy, Repeated for protobuf's repeated
--     fields.
--   Tests: instances of what is left open, and the theorems applied to small data.
--
-- How the parts interact: the gate reports to zone servers by send_to_agent of Channel and starts
-- its idle checks by add_timer of Timer; a zone server answers by the same send_to_agent, and each
-- side takes the other's messages apart by `unpack` of GateMsg. The cache sends its commands by the agent of Redis. The pack fires Events, the event
-- centre delays them by add_timer of Timer, and the tasks are moved on by them.
--
-- Numbers: a `uint32_t` wraps by u32 and sub_u32, a conversion to `int` is to_int, and a sum of
-- `int`s is an integer without overflow. `none` is a failed assertion or a fault.
--
-- Loops and fuel: GetFreeGridPos gets as many rounds as the pack has places, since a round moves one
-- place on. The searches for an id get one or two rounds more than there are ids in use. Expired
-- takes its fuel as an argument. OnClientDataRecv gets one round more than the read has bytes, and
-- OnEvent of the tasks one more than there are tasks, since a round leaves one task fewer to look at. The loops of
-- CheckTimeOut have their number of rounds from the source.
--
-- Parameters: protobuf's encodings (SsCodec and the fields of Env) and repeated fields
-- (RepeatedField), the clock, the sockets' results and the memory allocations (Env of Gate.Server);
-- the coroutine library (Coroutines), the database agent's answers and what PostMessage returns (Env of Zone.World), the handlers
-- of client messages (Dispatcher) and what a role holds (RoleCodec), the table of tasks, and for the event centre who is online and
-- what a player's logic centre does with an event; for the shared memory the system's Attach and Create,
-- the notifiers, and how a name is copied into an entry; for the
-- cache protobuf's reflection, the serializer, Redis and what listeners return;
-- for the agent of Redis hiredis, the clock and rand().
--
-- Not modelled: the operating system's signals and sockets, ZeroMQ, MySQL, Redis and Lua, which the
-- program only calls; generated protobuf code; test programs and clients; the start-up of the
-- servers; what lies behind the pointers to roles, which a PlayerAgent frees when it is destroyed. The
-- client message handlers in Lua, the database agent and the configuration parsers have
-- no model here.
pub mod Prelude
pub mod Repeated
pub mod Events
pub mod Knapsack
pub mod Bytes
pub mod Channel
pub mod Timer
pub mod GateMsg
pub mod Gate
pub mod Task
pub mod LogicCenter
pub mod ShareMemory
pub mod Cache
pub mod Redis
pub mod EventCenter
pub mod AutoSync
pub mod Zone
pub mod Tests
