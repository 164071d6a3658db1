-- ===== src/Lib.antt =====
-- Dynamiq: a distributed queue on top of Riak (app/, in Go).
--
-- A queue's messages are objects of a Riak bucket under random keys. The nodes of a cluster split
-- the key space among themselves by the order of their names, each node splits its range among the
-- partitions of a queue, and a caller that gets messages holds one partition, which is served again
-- only after the visibility timeout.
--
-- Partitions (app/partitions.go): `InitPartitions` is `init_partitions`, `GetPartition` is
-- `get_partition`, `getPartitionPosition` is `get_partition_position`, `PushPartition` is
-- `push_partition`, `makePartitions` is `make_partitions` and `syncPartitions` is
-- `sync_partitions`. The state is the priority queue, the partition count and the mutex. Its
-- children are proofs, named for what they show: Whole and Exclusive (histories), Handing, Timeout,
-- Stamps, Aging and Timely, Range, Growth, Sync and Free.
-- Nodes (app/partitions.go): `getNodePosition` and `GetNodePartitionRange`.
-- Seeds (app/members.go, app/config.go): `prioritizeSeedServers`, the list that `GetCoreConfig`
-- makes for it, and what `InitMemberList` joins.
-- Settings (app/config.go): `getQueueSetting`, `setQueueSetting` and the getters and setters over
-- them; Strconv is what they use of Go's package strconv.
-- Messages (app/queue.go): `Put`, `Delete`, `BatchDelete`, `RetrieveMessages` and `Get`, which
-- calls the partitions of its queue, the settings and the statistics. Counters is the statistics
-- helpers of the same file, Stats the clients of app/stats/stats.go.
-- Registry (app/config.go, app/queue.go): `InitializeQueue` with its helpers, `Exists`,
-- `DeleteQueue`, `initQueueFromRiak` and the `syncConfig` of one queue, over the settings and the
-- partitions; its children are proofs.
-- Topics (app/topic.go): `InitTopics`, `InitTopic`, `Broadcast`, `AddQueue`, `DeleteQueue`,
-- `ListQueues`, `DeleteTopic`, `Delete` and both `syncConfig`, over the messages and the Riak
-- interface. A topic is addressed by its name, as the callers do. Its children are proofs.
-- QueueSync (app/queue.go, app/config.go): `syncConfig` of all queues, which creates queues, takes
-- them out of the topics and of memory, and synchronises each, and `loadQueuesConfig`.
-- Http (app/httpinterface_v1.go): Handlers and Delivery are the functions that `InitWebserver`
-- registers, which call all of the above; Response is what they read and write, Strings what they
-- use of Go's package strings. The other children are proofs, named for what the handlers do.
-- App is the state that these share: the queues in memory, the state of the Riak cluster, the calls
-- of the statistics client and the random numbers drawn. Lane, Riak and Clock are interfaces to
-- packages that the repository only calls, and App has one for the compressor; Lane/ListQueue,
-- Tests/Cluster and Tests/Sets instantiate them. Prelude has the shared names, Go's integers and
-- the actions. Tests runs the code on concrete inputs.
--
-- An `int` is an integer with the wrap-around of 64 bits written out. A time is its nanoseconds
-- since 1970, and a call reads the clock once. Floating-point numbers are an interface. A method is
-- a function from the object to an outcome and the object; an outcome is a result, a panic, a wait
-- for a mutex that nobody releases, or a loop that has used up its rounds. Only the two loops of
-- `syncPartitions` take such a bound, which `syncConfig` passes on: with at least as many
-- partitions configured as there are, one round of each is enough; else the first loop ends for no
-- bound. The goroutines of `RetrieveMessages` read their objects while the loop that receives them
-- repairs others; how they run is an argument (`Arrivals`), which says for each object how many of
-- those that have come are taken up before it is read. An object is received in the order in which
-- it was read. Reading from the cluster does not change its state, so that the settings of a queue
-- are read once at the beginning of a call; methods of the partitions are atomic steps.
--
-- A handler is given the parameters of its route and the body of its request, decoded, and returns
-- what it writes, in order; what it wrote before a panic is not kept. A `map` of Go is an
-- association list, gone through in its order. An empty set of Riak answers a nil slice. The
-- queues' own copy of the map of known queues is read only where it was just fetched, and is not
-- kept. The mutex of the topics is a part of App, and so is that of the partitions of their state;
-- the mutexes of a queue, of the queues and of a topic are released by a `defer` over an assignment
-- or a read, and leave no trace in a method that is one step.
--
-- A bucket or a map of Riak stands for a pointer, and the interface has tests for nil. Their nil
-- pointers panic in `loadQueuesConfig`, `InitTopics`, `DeleteTopic` and `Delete` of a topic;
-- elsewhere a bucket and a map are taken to be usable.
--
-- Startup (dynamiq.go, app/config.go, app/members.go): `main` is `start`, `GetCoreConfig` is
-- `get_core_config`, with `initRiakPool` and the clients that it chooses, and `InitMemberList` is
-- `init_member_list`. The end of the process by `logrus.Fatal` is a value. Booted and Ended are
-- proofs.
-- Compression (app/compressor): the compressors for zlib and lzw, over the packages of Go, which
-- are interfaces; a child is a proof about the messages of a queue.
-- System: a running node as a step relation. A step is a request, served by `serve` of Http/Server
-- (the routes of `InitWebserver`), a tick of `scheduleSync` of app/queue.go or of app/topic.go that
-- returns, or a change of the cluster by others. Keeps has one rule for each way to build a method,
-- by which what a method leaves alone is found by search; its children go through the methods,
-- component by component. KeepsOk is the same for runs that return. Whole, Loaded, Synced, Serving
-- and Starting are the methods that change the queues in memory, Others what they leave of other
-- queues, Unlocked the mutex of a queue over `Get`, Requests the handlers, and Invariant puts them
-- together.
--
-- Not modelled: the matching of paths, the logging and the JSON of app/httpinterface_v1.go;
-- requests that overlap in time within a node, since a request is one step there; ticks that do not
-- return, which end their goroutine or the process; nil pointers that Riak answers outside the four
-- functions named above, as when it fails while a setting is read or a subscription is changed; and
-- the network and file access behind the interfaces.
pub mod Prelude
pub mod Lane
pub mod Clock
pub mod Nodes
pub mod Partitions
pub mod Seeds
pub mod Strconv
pub mod Strings
pub mod Http
pub mod System
pub mod Startup
pub mod Compression
pub mod Stats
pub mod Counters
pub mod Riak
pub mod App
pub mod Settings
pub mod Messages
pub mod Registry
pub mod Topics
pub mod QueueSync
mod Tests
