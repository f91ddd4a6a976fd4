-- ===== src/Lib.antt =====
-- DFS_SYSTEM: a distributed file store of one tracker and groups of storage nodes, both C++ programs
-- on epoll and a thread pool. The tracker (tracker/src) sends a user to the group that consistent
-- hashing gives for their name, and closes idle connections by a timer heap. A storage node
-- (storage/src) serves uploads and downloads over HTTP, tells the other nodes of its group about
-- them, and keeps logs on disk of what it has begun.
--
-- Text and data on the wire are lists of bytes, each a number below 256; `codes` gives the bytes of
-- a literal. An operation that the source ends by abort() or by an access out of range returns
-- `none`; what the source leaves undefined is an argument (`past`, or the old contents).
--
--   Base            Boolean tests, lists and texts over the native numbers; nothing of the program.
--   Buffer          storage/src/buffer/buffer.cpp, the byte buffer of every connection. The indices
--                   lpos_ and rpos_ into the vector are fields; Buffer.Queue is the queue that it
--                   implements. ReadFd and WriteFd take what the kernel answers as an argument.
--   ConsistentHash  tracker/src/message/consistenthash.h. The std::map is a sorted list of hash and
--                   group, std::hash a parameter.
--   HeapTimer       tracker/src/single/heaptimer.cpp. heap_ is a list and ref_ a function from ids to
--                   positions; the callback is a parameter that may change the timer, and close_user
--                   (tracker/src/message/node/listennode.cpp) is the one that the tracker gives.
--                   The loops of siftup_ and siftdown_ run on fuel, the position and the size, which
--                   suffice since a step halves the position or doubles it; the heap order that the
--                   theorems state could not hold otherwise. tick runs on the number of timers.
--   RwLock          tracker/src/lock/rwlock.h: what each thread does under the mutex is one step.
--   BlockDeque      storage/src/log/blockqueue.h and the tracker's copy: likewise, with the threads
--                   that sleep on a condition variable counted.
--   ConsistLog      storage/src/consistlog: RingLog (ringlog.cpp), the pages of ring.log with the
--                   lists through them, by file offset; RollbackLog (rollbacklog.cpp); SynLog
--                   (synlog.cpp). Format has the layout of a page.
--   Status          storage/src/message/enumstatus.h, the states of a message and of a file in it.
--   Wire            the words and decimal numbers of the texts between nodes, as iostreams write and
--                   read them; a number with a sign is not read.
--   FileBody        the loop that saves a file up to its end mark, in storage/src/message/node/
--                   tasknode.cpp (ParseBody_) and storage/src/http/httprequest.cpp (ParseFile_). A
--                   round saves a byte at least, so the length of the buffer is fuel enough.
--   StorageNode     storage/src/message/node/storagenode.cpp: tasks for another node of the group and
--                   WriteProcess. The answers of the kernel are a list; where it ends the socket would
--                   block. sendBuff is the queue that Buffer implements.
--   TaskNode        storage/src/message/node/tasknode.cpp, the node at the other end, with the loop
--                   over receipts of basenode.cpp. It writes and frees its log by ConsistLog.RingLog.
--   TrackerNode     storage/src/message/node/trackernode.cpp and storage/src/message/syntracker.h: what is
--                   written to the tracker, and what its answer makes of the group and the logs.
--                   socket and connect are a parameter; the members are counted, so that count is fuel.
--   TrackerGroup    tracker/src/message/node/storagenode.cpp, basenode.cpp and storagemess.h, what the
--                   tracker makes of it; a first member of a group enters the ring of ConsistentHash.
--                   Flag has the thread that is to lower a flag, on the values that its rounds read.
--   HttpRequest     storage/src/http/httprequest.cpp and httpmessage.h. The loops over lines run on the
--                   length of the buffer, of which each line takes two bytes at least.
--   HttpResponse    storage/src/http/httpresponse.cpp, and UpdateSql_ of httpconn.cpp.
--   HttpConn        storage/src/http/httpconn.cpp: a request, then UpdateLog_, which writes the pages of
--                   ConsistLog and gives the nodes of StorageNode their tasks, then the answer.
--   Config          tracker/src/message/config.h and storage/src/message/config.h. libconfig's lookups,
--                   inet_pton and what readdir and lstat give are parameters; the keys of the trackers
--                   end in one byte, and the loop over them stops after its 256 values.
--   TrackerRequest  tracker/src/http/httprequest.cpp and httpmessage.h. The database is a function from
--                   an order and those before it to its answer; getMD5 and std::hash are parameters.
--   TrackerResponse tracker/src/http/httpresponse.cpp. The texts of tracker/src/resources/html.h and the
--                   rows of the database are parameters.
--   TrackerConn     tracker/src/http/httpconn.cpp and tracker/src/message/node/listennode.cpp: the two
--                   above with the timer heap and the maps of TrackerGroup, from accept to the answer.
--   Log             storage/src/log/log.cpp and the tracker's copy, with the queue of BlockDeque. The
--                   time and the message are arguments as snprintf formats them.
--   SqlConnPool     tracker/src/pool/sqlconnpool.cpp: the queue of connections, its semaphore and its
--                   mutex as steps.
--   ThreadPool      tracker/src/pool/threadpool.h and the storage node's copy: tasks, workers and the
--                   closing of the pool as steps under the mutex.
--
-- Not modelled: sockets, epoll, threads but for RwLock, BlockDeque, ThreadPool and SqlConnPool, the
-- MySQL and OpenSSL calls, the dispatch of events in the servers, and the nodes that listen at a
-- storage node. The tracker's byte buffer and the storage node's timer heap are
-- near copies of what is modelled.

pub mod Base
pub mod Buffer
pub mod ConsistentHash
pub mod HeapTimer
pub mod RwLock
pub mod BlockDeque
pub mod ConsistLog
pub mod Status
pub mod ThreadPool
pub mod Wire
pub mod FileBody
pub mod StorageNode
pub mod TaskNode
pub mod TrackerNode
pub mod TrackerGroup
pub mod HttpRequest
pub mod HttpResponse
pub mod HttpConn
pub mod Config
pub mod TrackerRequest
pub mod TrackerResponse
pub mod TrackerConn
pub mod Log
pub mod SqlConnPool
