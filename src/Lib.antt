-- ===== src/Lib.antt =====
-- A model of dfs-mapreduce: a distributed file system with one controller and many storage nodes,
-- and a MapReduce master with its workers above it. All messages go over TCP as length-prefixed protobuf frames.
--
-- Base: numbers, lists, Go maps as association lists (Base/Maps), and the lines of a byte stream
-- as bufio.Scanner splits them (Base/Scanner).
--
-- dfs/messages/message_handler.go and dfs/proto/messages.proto are Dfs/Messages: the records,
-- the senders (Send) and the framing (Framing: `read_n` is ReadN, `write_n` WriteN, `send` Send,
-- `receive` Receive). mapreduce/messages/message_handler.go and mapreduce/proto/mapreduce.proto
-- are Mapreduce/Messages; its framing is the same code, so Framing takes the type of messages as
-- a parameter. Marshalling by protobuf is the parameter `Codec`. A connection that is read is a
-- list of pieces, one per Read; `read_n` has two rounds of fuel more than there are pieces, and a
-- round uses up a piece or is the last. `Reading` tells an error of the connection from a loop that
-- is still going on.
--
-- dfs/controller/controller.go is Dfs/Controller. The state is the record `Controller`: the maps
-- of nodes, files, pending files and pending counters, and the log. Each handler is one step on
-- that state, since it holds the mutex of what it changes: registerNode, updateHeartbeat,
-- monitorHeartbeats and handleNodeStats (Nodes), selectNodes (Select), handlePutFile (Put, in the
-- two parts between which it lets go of its locks), handleGetFile, handleListFiles,
-- handleLeaseRenew, monitorLeases, handleDeleteFile and handleReplicaNodes (Files),
-- handleChunkStatusReport (Report), processReplication (Replication). Step puts them together:
-- `run` is a history of received messages and background rounds, each at a time. An `Outcome` is
-- the new state with the replies and the messages to other nodes. The order in which Go walks a
-- map and slices.SortFunc are the parameter `Runtime`; `RuntimeLaws` says that both keep the
-- elements.
--
-- dfs/controller/wal.go is Dfs/Controller/Wal: appendWalRecord, compactWAL and recoverWAL over the
-- bytes of the log file. encoding/json is the parameter `Json`, with `JsonLaws`: a record reads
-- back, and is one line. `WalIo` is what the system answers during one append: a write error with
-- the bytes already written, and the failure of any step of a compaction. History has the stored
-- files of the controller and the log together, through publications and deletions.
--
-- dfs/client/client.go is Dfs/Client: calculateChunks on the bytes of a file, and the chunk size
-- from the command line. The loop over a text has a round of fuel for each byte, and each round
-- takes at least one.
--
-- mapreduce/master/master.go is Mapreduce/Master: the workers and the number of reducers,
-- selectWorker and selectReduceWorker (Select), the retry loops of assignMapTask and
-- assignReduceTask (Assign, six rounds of fuel for five attempts), and what runJob does with a
-- finished map task (Jobs). What workers answer, and the master's view of them in each attempt,
-- are the parameter `Network`. Receive has no deadline there, so a worker may keep its connection
-- open in silence (`silent`): the assignment is then `no_report`, and its goroutine stays blocked.
--
-- dfs/server/server.go and dfs/util/util.go are Dfs/Server. The state is `Disk`, for each base name
-- and chunk id the chunk's file and the file of its checksum. handleStoreChunk,
-- handleRetrieveChunk, verifyChunkIntegrity, handleDeleteFile, handleDispatchReplicaTask and one
-- message of handleClient are functions from what the disk and the connection do (`StoreRun`,
-- `ClientRun`; os.Remove of a chunk that a store has spoilt is taken to succeed) to the new disk and the messages (`Effects`). manageReplication and replicate are
-- in Replication, over a list of turns and with the handler of the receiving node; repairChunk is
-- in Repair, over what the peers send. View is the abstract store of the chunks that would be
-- served. filepath.Base and md5 are parameters; sizes on a disk are taken modulo 2 ^ 32.
--
-- mapreduce/util/sort.go and kv.go are Mapreduce/Util: bytes.Compare (Keys), KVScanner,
-- externalSortBatch and ExternalSort (Sort). A file is its bytes, or `none` if it cannot be
-- opened; a temporary file can be opened again with the bytes that were written. container/heap
-- is the interface `ScannerHeap`. The loop that empties the heap has a round for each line and one
-- more; ExternalSort needs fewer passes than there are files.
--
-- mapreduce/worker/worker.go is Mapreduce/Worker: ihash and the index files, whose lines are the
-- three numbers that fmt prints and scans; spill (Spill, with sort.Slice as the interface
-- `KeySort`), runMap and mergeSpills (MapTask), shuffle and runReduce (ReduceTask), and the map
-- tasks of a job together with what a reducer gathers (Job): `run_maps` puts each result on the
-- reducer's own machine or on another one that sends it whole, while `fetch` has the failures of a
-- transfer too, and the one that breaks off early. handleTask and handleConnection are in
-- Connection. Spills are read back as they were
-- written. The plugin's functions, the results that can be fetched, and whether files can be
-- created are arguments. Offsets are natural numbers: files are shorter than 2 ^ 63 bytes.
--
-- mapreduce/plugin/ is Mapreduce/Plugin: the four pairs of Map and Reduce, and in Job a job of
-- Mapreduce/Worker with any of them. The runs of a job on the master, runJob of
-- mapreduce/master/master.go, are Mapreduce/Master/Run: a `Routine` is the place a goroutine has
-- reached, a turn takes one lock or sends one message, and `Reaches` has the states under all
-- schedules. getChunkInfoFromDFS, handleJobSubmission and handleConnection are Submit beside it.
--
-- mapreduce/client/ is Mapreduce/Client: submitJob of client.go, with what it shows of the master's
-- messages (Watch); top10_domains.go, top5_ips.go and total_unique.go (Top); download_results.go and
-- delete_results.go (Results). mapreduce/util/sys_stats.go is Mapreduce/Util/SysStats, on the content
-- of the files under /proc; the operations on floating point numbers are parameters.
--
-- The transfers of dfs/client/client.go are Dfs/Client/Transfer: the upload of one chunk in put, the
-- loop of getChunk and mergeChunks, with the handlers of Dfs/Server at the other end. What the
-- connection to each node does is an argument (`Node`, `Answer`). put, get, delete, list, nodes and
-- sortNodeAddresses are Dfs/Client/Files, from the controller's reply on: a `Cluster` is the disk at
-- each address, a `Visit` what the connection for a chunk meets there, and the chunks are taken in
-- their order, where the source has a goroutine for each.
--
-- Tests holds runs on concrete inputs, with a priority queue and sorts that keep the promises of
-- the interfaces.
--
-- Not modelled: the walk of the storage server's scrubber over its directories, heartbeats and
-- registration of the storage server and the worker, the loading of plugins, the lease renewals
-- during a put, the command lines and printed tables of the programs, and what only calls the
-- operating system. A message whose sub-message is missing makes the source panic;
-- here sub-messages are always there. The effects of failed sends of replies are left out: the
-- handlers ignore them. Handlers of the storage server that run at once on one chunk are left out;
-- a retrieve during a write is an argument of the handler.
pub mod Base
pub mod Dfs
pub mod Mapreduce
mod Tests
