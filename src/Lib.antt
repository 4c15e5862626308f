-- ===== src/Lib.antt =====
-- KVRPC is a library for remote calls over TCP and a key-value cache server, KVCache, that is built
-- on it. This development models the storage of KVCache, the frames that it speaks, the TCP server
-- that brings them to it, remote calls over such a server, and the clients of both.
--
-- The parts and how they interact. The server reads the bytes of its connections, cuts them into
-- frames, and queues a job for each; a worker runs the handler, and the reply goes back to the
-- event loop of the connection. The handler is the dispatch of remote calls, or the service of the
-- cache. A client sends frames of the KV protocol. The service decodes a frame, logs its mutation,
-- makes the log durable, and only then changes the cache and replies. The cache spreads the keys
-- over LRU shards. After a restart the log is replayed into an empty cache.
--
-- Base        The shared types. include/kvrpc/error.h and the standard exceptions are the values of
--             `Exception`, and a call that may throw returns an `Outcome`, whose `stuck` is undefined
--             behaviour or the end of the fuel. Strings and vectors of bytes are lists of numbers.
-- Kv          include/kvrpc/kv_protocol.h: `validate`, `encode` and `decodeHeader` of `Message`, and
--             the frame sizer of include/kvrpc/kvcache_client.h. Kv/Frame has the theorems.
-- Lru         KVCache/include/lru_cache.h: a node of the list has an identity, and an iterator is
--             that identity. Each method is one function, since the mutex makes it one step. The
--             clock, `Cost` and `sizeof(Entry)` are arguments. Lru/Shard is the contract of a shard,
--             on the entries in the order of their use, and the other children prove that the
--             methods implement it. The eviction loop runs on fuel, one more than the items.
-- Sharded     KVCache/include/sharded_cache.h; the hash is an argument of which nothing is assumed.
-- Aof         KVCache/include/aof.h and KVCache/src/aof.cpp. Aof/Crc is the checksum, Aof/Disk the
--             file and its system calls, Aof/Encode the records, Aof/Replay the reader and
--             Aof/Logger the logger with its batches and rewrites. The kernel is a script of
--             results, one for each call, so theorems for every script are about every failure. The
--             replay runs on fuel, one more than the bytes of the log, since a round reads twelve
--             bytes at least.
-- Buffer      include/kvrpc/buffer.h, the bytes that a connection has read or is to write.
-- Service     KVCache/include/cache_service.h: `HandleBatch` as its two loops with the log between them,
--             the constructor and the compaction. The codec of the generated messages, the hash, the
--             comparison of strings, `std::to_string` and the metrics are the record `Outside`, and
--             the clock is a function from the number of a reading to the time.
-- Server      include/kvrpc/tcp_server.h and src/tcp_server.cpp. Server itself has the options, the queue
--             of jobs and the workers; Server/Accept the accepting of connections; Server/Pump the
--             peers of an event loop. The results of `send`, `recv` and `accept4` are scripts, and
--             a budget or a count of rounds of the source bounds each loop. Server/Queue has the
--             theorems on the queue; the children of Server/Pump have those on sending, receiving
--             and the cutting of frames, on `Pump` and the callback of a reply as a whole, and, in
--             Server/Pump/Sessions, on the life of a peer, which is the step relation of Server/Pump/Events.
-- Rpc         include/kvrpc/rpc_protocol.h over the messages of proto/rpc.proto, whose runtime is the
--             record `Codec`. Rpc/Remote is include/kvrpc/rpc_server.h and the calls of
--             include/kvrpc/rpc_client.h, with the transport between them left out.
-- Serializer  include/kvrpc/serializer.h: a scalar is its representation, and the order of bytes of the
--             machine is an argument.
-- Connection  include/kvrpc/tcp_connection.h and src/tcp_connection.cpp: the script has the rounds of
--             `Wait` and the results of the calls after them, and ends at the deadline.
-- Client      include/kvrpc/kvcache_client.h: the requests and what is made of the responses.
-- Transport   src/async_transport.cpp: the requests from their admission to their completion. `Finish` and
--             `Disconnect` call each other, on fuel: each call of a completion erases a request, so
--             one more than the requests is enough.
-- Tests       Concrete runs, at which the hypotheses of the theorems hold.
--
-- Not modelled: threads and mutexes, descriptors and their closing, the messages of exceptions, a
-- failing allocation, the event loop itself, the start and the end of the server's threads, the
-- sockets of the asynchronous transport, the executor, the connection pool, the programs, and the
-- code under third_party. A sum of the sizes of objects in memory stays below 2 ^ 64, while
-- subtractions of sizes and the counters of the log wrap as they do in the source. The counts of
-- hits, misses and evictions of a cache, the tokens of peers and the server's counters of events,
-- which are 64 bits wide in the source, are numbers without bound.
pub mod Base
pub mod Kv
pub mod Lru
pub mod Sharded
pub mod Aof
pub mod Buffer
pub mod Service
pub mod Server
pub mod Rpc
pub mod Serializer
pub mod Connection
pub mod Client
pub mod Transport
pub mod Tests
