-- ===== src/Aof.antt =====
-- KVCache/include/aof.h and KVCache/src/aof.cpp: the append-only log. `Crc` is its checksum, `Disk`
-- the system calls, `Encode` the records, `Logger` the methods that write, and `Replay` the reader.
pub mod Crc
pub mod Disk
pub mod Encode
pub mod Logger
pub mod Replay
