-- ===== src/Service.antt =====
-- KVCache/include/cache_service.h: requests are decoded, logged, made durable, and only then change
-- the cache and are answered. The messages of rpc.pb.h are generated, so their codec is a parameter;
-- so are the hash and the comparison of strings, `std::to_string` and the metrics of the transport.
-- A clock gives the successive readings of the time.
pub mod Replies
use kvrpc.Base.{
  ℕ, zero, suc, ◌+◌, ◌*◌, ◌%◌, ◌^◌, Bool, true, false, not, ◌&&◌, ◌||◌, List, [], ◌∷◌, ◌++◌, map,
  Option, none, some, Bytes, length, ltb, ◌==◌, if◌then◌else◌, Outcome, ok, throws, stuck,
  Exception, is_runtime_error, throw_if, ◌>>=◌, ◌>>◌,
}
use kvrpc.Kv.{
  Command, Header, header_size, max_value_size, command_of, validate, decode_header, body_key,
  body_value, encode,
}
use kvrpc.Lru.{Costs, Entry}
use kvrpc.Lru
use kvrpc.Sharded
use kvrpc.Sharded.{ShardedCache}
use kvrpc.Aof.Disk.{Disk}
use kvrpc.Aof.Encode.{Mutation}
use kvrpc.Aof.Logger.{Logger, Stats, open_log, start, needs_rewrite, log_batch, rewrite, replay}

-- `kvrpc::wire::CacheValue`
pub record Item : Type 0 where
  pub found : Bool
  pub value : Bytes
  pub ttl_ms : ℕ
  pub expires_unix_ms : ℕ

pub record Codec : Type 0 where
  pub parse : Bytes → Option Item
  pub serialize : Item → Bytes

abbrev pub Store : Type 0
Store = ShardedCache Bytes Bytes

pub record Request : Type 0 where
  pub command : Command
  pub key : Bytes
  pub value : Bytes
  pub expires : ℕ

-- `TcpServer::Reply`
pub record Reply : Type 0 where
  pub bytes : Bytes
  pub consumed : ℕ
  pub close : Bool

pub record Service : Type 0 where
  pub cache : Store
  pub aof : Logger
  pub failed : Bool

-- What the first loop of `HandleBatch` makes of an input: more bytes are wanted, the connection is
-- to be closed, or a request of so many bytes is ready.
pub data Slot : Type 0 where
  waiting closing : Slot
  ready : Request → ℕ → Slot

-- The longest time to live, ten years.
abbrev pub max_ttl : ℕ
max_ttl = 315360000000

-- "Hits: "
abbrev hits_label : Bytes
hits_label = 72 ∷ 105 ∷ 116 ∷ 115 ∷ 58 ∷ 32 ∷ []

-- ", Misses: "
abbrev misses_label : Bytes
misses_label = 44 ∷ 32 ∷ 77 ∷ 105 ∷ 115 ∷ 115 ∷ 101 ∷ 115 ∷ 58 ∷ 32 ∷ []

-- ", AOF records: "
abbrev records_label : Bytes
records_label = 44 ∷ 32 ∷ 65 ∷ 79 ∷ 70 ∷ 32 ∷ 114 ∷ 101 ∷ 99 ∷ 111 ∷ 114 ∷ 100 ∷ 115 ∷ 58 ∷ 32 ∷ []

-- ", AOF syncs: "
abbrev syncs_label : Bytes
syncs_label = 44 ∷ 32 ∷ 65 ∷ 79 ∷ 70 ∷ 32 ∷ 115 ∷ 121 ∷ 110 ∷ 99 ∷ 115 ∷ 58 ∷ 32 ∷ []

-- ", AOF bytes: "
abbrev aof_bytes_label : Bytes
aof_bytes_label = 44 ∷ 32 ∷ 65 ∷ 79 ∷ 70 ∷ 32 ∷ 98 ∷ 121 ∷ 116 ∷ 101 ∷ 115 ∷ 58 ∷ 32 ∷ []

-- ", Cache bytes: "
abbrev cache_bytes_label : Bytes
cache_bytes_label =
    44 ∷ 32 ∷ 67 ∷ 97 ∷ 99 ∷ 104 ∷ 101 ∷ 32 ∷ 98 ∷ 121 ∷ 116 ∷ 101 ∷ 115 ∷ 58 ∷ 32 ∷ []

-- ", Evictions: "
abbrev evictions_label : Bytes
evictions_label = 44 ∷ 32 ∷ 69 ∷ 118 ∷ 105 ∷ 99 ∷ 116 ∷ 105 ∷ 111 ∷ 110 ∷ 115 ∷ 58 ∷ 32 ∷ []

-- ", AOF rewrites: "
abbrev rewrites_label : Bytes
rewrites_label =
    44 ∷ 32 ∷ 65 ∷ 79 ∷ 70 ∷ 32 ∷ 114 ∷ 101 ∷ 119 ∷ 114 ∷ 105 ∷ 116 ∷ 101 ∷ 115 ∷ 58 ∷ 32 ∷ []

-- ", AOF sync us: "
abbrev sync_us_label : Bytes
sync_us_label = 44 ∷ 32 ∷ 65 ∷ 79 ∷ 70 ∷ 32 ∷ 115 ∷ 121 ∷ 110 ∷ 99 ∷ 32 ∷ 117 ∷ 115 ∷ 58 ∷ 32 ∷ []

-- What the service takes from outside.
pub record Outside : Type 0 where
  pub dec : Discrete Bytes
  pub hash : Bytes → ℕ
  pub entry_size : ℕ
  pub codec : Codec
  pub to_string : ℕ → Bytes
  pub metrics : Bytes

module _ (o : Outside) where
  abbrev pub costs : Costs Bytes Bytes
  costs = record { of_key = length; of_value = length; entry_size = o.entry_size }

  -- The callback of the replay, with the number of the next reading of the clock.
  unfoldable pub restore : (ℕ → ℕ) → Mutation → ℕ × Store → Outcome (ℕ × Store)
  restore clock m (i, cache) = elim m.command [
    | Command.set ↦
        Sharded.put o.dec costs o.hash (clock i) m.key m.value 0 cache >>= λ c. ok (suc i, c)
    | Command.set_ttl ↦ elim (o.codec.parse m.value) [
      | none ↦ throws Exception.runtime_error
      | some item ↦
          if item.expires_unix_ms == 0
          then throws Exception.runtime_error
          else (Sharded.put o.dec costs o.hash (clock i) m.key item.value item.expires_unix_ms cache
              >>= λ c. ok (suc i, c))
    ]
    | _ ↦ Sharded.remove o.dec costs o.hash m.key cache >>= λ r. ok (i, r.0)
  ]

  -- The constructor.
  unfoldable pub new_service : (ℕ → ℕ) → ℕ → ℕ → ℕ → ℕ → Disk → Outcome Service
  new_service clock capacity shards max_aof_bytes max_cache_bytes d = do
    cache ← Sharded.new capacity shards max_cache_bytes
    aof ← (open_log max_aof_bytes d).0
    restored ← replay (restore clock) aof (0, cache)
    ok (record { cache = restored.1; aof = start aof; failed = false })

  abbrev is_put : Command → Bool
  is_put Command.set = true
  is_put Command.set_ttl = true
  is_put _ = false

  abbrev is_stats : Command → Bool
  is_stats Command.stats = true
  is_stats _ = false

  -- `value.size() > MAX_VALUE_SIZE || !cache_.canStore(key, value)`
  unfoldable pub check_entry : Bytes → Bytes → Store → Outcome (Unit {0})
  check_entry key value cache = do
    fits ← Sharded.can_store o.dec costs o.hash key value cache
    throw_if (ltb max_value_size (length value) || not fits) Exception.runtime_error

  -- A whole request, and what of it is to be logged.
  unfoldable pub admit : ℕ → Command → Bytes → Bytes → Store → Outcome (Request × List Mutation)
  admit now command key value cache = elim command [
    | Command.set_ttl ↦ elim (o.codec.parse value) [
      | none ↦ throws Exception.runtime_error
      | some item ↦ do
        throw_if (item.ttl_ms == 0 || ltb max_ttl item.ttl_ms) Exception.runtime_error
        let expires = (now + item.ttl_ms) % 2 ^ 64
        check_entry key item.value cache
        let logged = o.codec.serialize (record item { ttl_ms = 0; expires_unix_ms = expires })
        ok (
          record { command = Command.set_ttl; key = key; value = item.value; expires = expires },
          record { command = Command.set_ttl; key = key; value = logged } ∷ [],
        )
    ]
    | Command.set ↦ do
      check_entry key value cache
      ok (
        record { command = Command.set; key = key; value = value; expires = 0 },
        record { command = Command.set; key = key; value = value } ∷ [],
      )
    | Command.del ↦ ok (
      record { command = Command.del; key = key; value = value; expires = 0 },
      record { command = Command.del; key = key; value = value } ∷ [],
    )
    | other ↦ ok (record { command = other; key = key; value = value; expires = 0 }, [])
  ]

  -- The `try` block of the first loop.
  unfoldable pub read_input : ℕ → Bytes → Store → Outcome (Slot × List Mutation)
  read_input now bytes cache =
      let h = decode_header bytes in
      let command = command_of h.command in
      let total = header_size + h.key_len + h.value_len in
      if ltb (length bytes) header_size then ok (waiting, []) else do
        validate h
        throw_if
            ((not (is_put command) && not (h.value_len == 0))
              || (is_stats command && not (h.key_len == 0)))
            Exception.runtime_error
        (if ltb (length bytes) total
            then ok (waiting, [])
            else (admit now command (body_key h bytes) (body_value h bytes) cache >>= λ r.
                ok (ready r.0 total, r.1)))

  -- Its `catch`.
  abbrev pub caught : Outcome (Slot × List Mutation) → Outcome (Slot × List Mutation)
  caught (ok r) = ok r
  caught (throws e) = if is_runtime_error e then ok (closing, []) else throws e
  caught stuck = stuck

  unfoldable pub read_inputs :
      (ℕ → ℕ) → ℕ → List Bytes → Store → Outcome (List Slot × List Mutation)
  read_inputs clock i [] cache = ok ([], [])
  read_inputs clock i (bytes ∷ inputs) cache = do
    r ← caught (read_input (clock i) bytes cache)
    rest ← read_inputs clock (suc i) inputs cache
    ok (r.0 ∷ rest.0, r.1 ++ rest.1)

  -- The text of `STATS`.
  abbrev pub stats_text : Lru.Stats → Stats → Bytes
  stats_text stats disk =
      (hits_label ++ o.to_string stats.hits)
      ++ ((misses_label ++ o.to_string stats.misses)
          ++ ((records_label ++ o.to_string disk.records)
              ++ ((syncs_label ++ o.to_string disk.syncs)
                  ++ ((aof_bytes_label ++ o.to_string disk.bytes)
                      ++ ((cache_bytes_label ++ o.to_string stats.bytes)
                          ++ ((evictions_label ++ o.to_string stats.evictions)
                              ++ ((rewrites_label ++ o.to_string disk.rewrites)
                                  ++ ((sync_us_label ++ o.to_string disk.sync_us)))))))))

  abbrev pub value_or_empty : Option Bytes → Bytes
  value_or_empty none = []
  value_or_empty (some value) = value

  -- `item.set_found(value.has_value()); if (value) item.set_value(*value);`
  abbrev pub looked_up : Option Bytes → Item
  looked_up none = record { found = false; value = []; ttl_ms = 0; expires_unix_ms = 0 }
  looked_up (some value) = record { found = true; value = value; ttl_ms = 0; expires_unix_ms = 0 }

  -- The chain of tests on the command in the second loop: the new cache and the response.
  unfoldable pub perform : ℕ → Request → Stats → Store → Outcome (Store × Bytes)
  perform now r disk cache = elim r.command [
    | Command.set ↦
        Sharded.put o.dec costs o.hash now r.key r.value r.expires cache >>= λ c. ok (c, [])
    | Command.set_ttl ↦
        Sharded.put o.dec costs o.hash now r.key r.value r.expires cache >>= λ c. ok (c, [])
    | Command.del ↦ Sharded.remove o.dec costs o.hash r.key cache >>= λ x. ok (x.0, [])
    | Command.get ↦
        Sharded.get o.dec costs o.hash now r.key cache >>= λ x. ok (x.0, value_or_empty x.1)
    | Command.lookup ↦ Sharded.get o.dec costs o.hash now r.key cache >>= λ x.
        ok (x.0, o.codec.serialize (looked_up x.1))
    | Command.stats ↦ ok (cache, stats_text (Sharded.get_stats cache) disk ++ o.metrics)
    | Command.unknown ↦ ok (cache, stats_text (Sharded.get_stats cache) disk)
  ]

  abbrev pub Served : Type 0
  Served = Outcome (List Reply) × Store

  -- A reply in front of those of the later inputs.
  abbrev pub reply_first : Reply → Served → Served
  reply_first r (ok rs, c) = (ok (r ∷ rs), c)
  reply_first r (throws e, c) = (throws e, c)
  reply_first r (stuck, c) = (stuck, c)

  -- What is encoded, and the cache that a throwing `encode` leaves.
  abbrev pub answer : Request → ℕ → Store → Bytes → (Reply → Served) → Served
  answer r total cache response rest = elim (encode r.command r.key response) [
    | ok bytes ↦ rest (record { bytes = bytes; consumed = total; close = false })
    | throws e ↦ (throws e, cache)
    | stuck ↦ (stuck, cache)
  ]

  -- What follows the change of the cache.
  abbrev pub performed : Outcome (Store × Bytes) → Store → (Store → Bytes → Served) → Served
  performed (ok (c, response)) cache rest = rest c response
  performed (throws e) cache rest = (throws e, cache)
  performed stuck cache rest = (stuck, cache)

  -- The second loop of `HandleBatch`.
  unfoldable pub serve : (ℕ → ℕ) → ℕ → List Slot → Stats → Store → Served
  serve clock i [] disk cache = (ok [], cache)
  serve clock i (waiting ∷ slots) disk cache =
      reply_first (record { bytes = []; consumed = 0; close = false })
        (serve clock (suc i) slots disk cache)
  serve clock i (closing ∷ slots) disk cache =
      reply_first (record { bytes = []; consumed = 0; close = true })
        (serve clock (suc i) slots disk cache)
  serve clock i (ready r total ∷ slots) disk cache =
      performed (perform (clock i) r disk cache) cache (λ c response.
        answer r total c response (λ reply. reply_first reply (serve clock (suc i) slots disk c)))

  -- One entry of the snapshot as a mutation.
  abbrev pub saved : Entry Bytes Bytes → Mutation
  saved e =
      if e.expires == 0
      then record { command = Command.set; key = e.key; value = e.value }
      else record {
        command = Command.set_ttl;
        key = e.key;
        value =
            o.codec.serialize
              (record { found = false; value = e.value; ttl_ms = 0; expires_unix_ms = e.expires });
      }

  -- `CompactLocked`
  unfoldable pub compact : (ℕ → ℕ) → ℕ → Service → Outcome (Unit {0}) × Service
  compact clock i s =
      let (r, aof) = rewrite (map saved (Sharded.snapshot clock i s.cache)) s.aof in
      (r, record s { aof = aof })

  abbrev pub is_capacity_error : Exception → Bool
  is_capacity_error Exception.capacity_error = true
  is_capacity_error _ = false

  -- The two `catch` clauses of `HandleBatch`.
  unfoldable pub fail : Exception → Service → Outcome (List Reply) × Service
  fail e s = if is_capacity_error e then (throws e, s) else (throws e, record s { failed = true })

  -- `if (aof_.needsRewrite(mutations)) CompactLocked();`
  abbrev pub compact_if : (ℕ → ℕ) → ℕ → Service → Outcome Bool → Outcome (Unit {0}) × Service
  compact_if clock i s (ok true) = compact clock i s
  compact_if clock i s (ok false) = (ok tt, s)
  compact_if clock i s (throws e) = (throws e, s)
  compact_if clock i s stuck = (stuck, s)

  unfoldable pub make_room : (ℕ → ℕ) → ℕ → List Mutation → Service → Outcome (Unit {0}) × Service
  make_room clock i ms s = compact_if clock i s (needs_rewrite ms s.aof)

  abbrev pub served : Service → Served → Outcome (List Reply) × Service
  served s (ok replies, cache) = (ok replies, record s { cache = cache })
  served s (throws e, cache) = fail e (record s { cache = cache })
  served s (stuck, cache) = (stuck, record s { cache = cache })

  abbrev pub logged_then :
      (ℕ → ℕ)
      → ℕ
      → List Slot
      → Service
      → Outcome (Unit {0}) × Logger
      → Outcome (List Reply) × Service
  logged_then clock i slots s (ok u, aof) =
      served (record s { aof = aof }) (serve clock i slots aof.stats s.cache)
  logged_then clock i slots s (throws e, aof) = fail e (record s { aof = aof })
  logged_then clock i slots s (stuck, aof) = (stuck, record s { aof = aof })

  abbrev pub room_then :
      (ℕ → ℕ)
      → ℕ
      → ℕ
      → List Slot
      → List Mutation
      → Outcome (Unit {0}) × Service
      → Outcome (List Reply) × Service
  room_then clock i elapsed slots ms (ok u, s) =
      logged_then clock i slots s (log_batch elapsed ms s.aof)
  room_then clock i elapsed slots ms (throws e, s) = fail e s
  room_then clock i elapsed slots ms (stuck, s) = (stuck, s)

  -- What follows the first loop.
  abbrev pub read_then :
      (ℕ → ℕ)
      → ℕ
      → ℕ
      → Service
      → Outcome (List Slot × List Mutation)
      → Outcome (List Reply) × Service
  read_then clock n elapsed s (ok (slots, ms)) =
      room_then clock (n + Sharded.size s.cache) elapsed slots ms (make_room clock n ms s)
  read_then clock n elapsed s (throws e) = (throws e, s)
  read_then clock n elapsed s stuck = (stuck, s)

  -- `HandleBatch`; the readings of the clock are one for each input, one for each entry, if there
  -- is a snapshot, and one more for each input.
  unfoldable pub handle_batch : (ℕ → ℕ) → ℕ → List Bytes → Service → Outcome (List Reply) × Service
  handle_batch clock elapsed inputs s =
      if s.failed
      then (throws Exception.runtime_error, s)
      else read_then clock (length inputs) elapsed s (read_inputs clock 0 inputs s.cache)

  -- `Handle`, for a single input: the bytes of the reply and what it consumed.
  unfoldable pub handle : (ℕ → ℕ) → ℕ → Bytes → Service → Outcome (Bytes × ℕ) × Service
  handle clock elapsed bytes s =
      let (r, s') = handle_batch clock elapsed (bytes ∷ []) s in
      (
        elim r [
          | throws e ↦ throws e
          | stuck ↦ stuck
          | ok replies ↦ elim replies [
            | [] ↦ stuck
            | reply ∷ _ ↦
                if reply.close
                then throws Exception.runtime_error
                else ok (reply.bytes, reply.consumed)
          ]
        ],
        s',
      )
