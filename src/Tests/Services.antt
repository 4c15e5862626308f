-- ===== src/Tests/Services.antt =====
-- A service with an empty cache and log, and a batch of three inputs.
use mathlib.Core.List.{List-discrete}
use kvrpc.Base.{
  ℕ, ◌≡◌, ◌≢◌, refl, Bool, true, false, List, [], ◌∷◌, none, some, Bytes, length, arith, Outcome,
  ok, ℕ_discrete,
}
use kvrpc.Lru
use kvrpc.Sharded
use kvrpc.Aof.Disk.{interrupted, moved}
use kvrpc.Aof.Encode.{Mutation}
use kvrpc.Aof.Logger.{Logger}
use kvrpc.Aof.Logger.Batches.{IsValid}
use kvrpc.Service.{Item, Codec, Outside, Slot, Reply, Service, read_inputs, handle_batch}
use kvrpc.Service.Replies.{AnswersAll, Kept, handle_batch-Kept}

abbrev outside : Outside
outside = record {
  dec = List-discrete ℕ_discrete;
  hash = length;
  entry_size = 96;
  codec = record {
    parse = λ bs. some (record { found = true; value = bs; ttl_ms = 5; expires_unix_ms = 9 });
    serialize = λ i. i.value;
  };
  to_string = λ n. n ∷ [];
  metrics = [];
}

abbrev service : Service
service = record {
  cache = record { num_shards = 1; shards = Lru.empty 4 1000 ∷ [] };
  aof = record {
    disk = record { contents = []; durable = []; os = interrupted ∷ moved 9 ∷ [] };
    bytes = 0;
    rewritten_at = 0;
    max_bytes = 100;
    failed = false;
    started = true;
    stats = record { records = 0; syncs = 0; bytes = 0; rewrites = 0; sync_us = 0 };
  };
  failed = false;
}

service-IsValid : IsValid service.aof
service-IsValid = record {
  sized = λ e. refl;
  bounded = omega arith;
  rewritten = omega arith;
  word = omega arith;
  counted = refl;
}

-- A whole SET, the start of a frame, and a frame of another protocol.
abbrev inputs : List Bytes
inputs =
    (0xca ∷ 0xfe ∷ 1 ∷ 1 ∷ 0 ∷ 0 ∷ 0 ∷ 1 ∷ 0 ∷ 0 ∷ 0 ∷ 2 ∷ 97 ∷ 1 ∷ 2 ∷ [])
    ∷ (0xca ∷ [])
    ∷ (1 ∷ 2 ∷ 3 ∷ 4 ∷ 5 ∷ 6 ∷ 7 ∷ 8 ∷ 9 ∷ 10 ∷ 11 ∷ 12 ∷ [])
    ∷ []

abbrev replies : List Reply
replies =
    record {
      bytes = 0xca ∷ 0xfe ∷ 1 ∷ 1 ∷ 0 ∷ 0 ∷ 0 ∷ 1 ∷ 0 ∷ 0 ∷ 0 ∷ 0 ∷ 97 ∷ [];
      consumed = 15;
      close = false;
    }
    ∷ record { bytes = []; consumed = 0; close = false }
    ∷ record { bytes = []; consumed = 0; close = true }
    ∷ []

answered : (handle_batch outside (λ i. i) 3 inputs service).0 ≡ ok replies
unfolding handle_batch read_inputs kvrpc.Service.read_input kvrpc.Service.admit
    kvrpc.Service.check_entry kvrpc.Service.perform kvrpc.Service.serve kvrpc.Service.make_room
    kvrpc.Aof.Logger.needs_rewrite Sharded.can_store Sharded.get_shard Sharded.put Lru.can_store
    Lru.put Lru.store Lru.link Lru.evict kvrpc.Kv.decode_header kvrpc.Kv.body_key
    kvrpc.Kv.body_value kvrpc.Base.Words.read16 kvrpc.Base.Words.read32 kvrpc.Aof.Logger.log_batch
    kvrpc.Aof.Logger.commit kvrpc.Aof.Logger.write_all kvrpc.Aof.Logger.write_records
    kvrpc.Aof.Logger.write_record kvrpc.Aof.Logger.and_then kvrpc.Aof.Disk.write_loop
    kvrpc.Aof.Disk.sync_loop kvrpc.Aof.Logger.sync kvrpc.Aof.Encode.size_of
    kvrpc.Aof.Encode.encode_record kvrpc.Kv.encode kvrpc.Kv.validate kvrpc.Kv.invalid_header
    kvrpc.Aof.Encode.wrap kvrpc.Base.Words.be16 kvrpc.Base.Words.be32 kvrpc.Kv.header_bytes
    kvrpc.Base.take kvrpc.Base.drop
answered = refl

handle_batch-Kept_example :
    (slots : List Slot) × (ms : List Mutation) × (read_inputs outside
        (λ i. i)
        0
        inputs
        service.cache
      ≡ ok (slots, ms))
    × AnswersAll outside slots replies
    × (ms ≢ []
        → Kept outside service (λ i. i) 3 ms (handle_batch outside (λ i. i) 3 inputs service).1.aof)
handle_batch-Kept_example =
    handle_batch-Kept outside (λ i. i) 3 inputs service service-IsValid answered
