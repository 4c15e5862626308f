-- ===== src/Tests/Buffers.antt =====
-- A buffer of five bytes, three of them consumed.
use kvrpc.Base.{◌-◌, ◌≡◌, [], ◌∷◌, ◌++◌, drop, arith}
use kvrpc.Buffer.{Buffer, buffer_size, buffer_data, append, consume}
use kvrpc.Buffer.Queue.{IsBuffer, append_lem, consume_lem}

abbrev used : Buffer
used = record { bytes = 1 ∷ 2 ∷ 3 ∷ 4 ∷ 5 ∷ []; read = 3 }

used-IsBuffer : IsBuffer used
used-IsBuffer = record { within = omega arith }

append_lem_example :
    IsBuffer (append (6 ∷ []) used)
    × (buffer_data (append (6 ∷ []) used) ≡ buffer_data used ++ 6 ∷ [])
append_lem_example = append_lem (6 ∷ []) used used-IsBuffer

consume_lem_example :
    IsBuffer (consume 2 used)
    × (buffer_data (consume 2 used) ≡ drop 2 (buffer_data used))
    × (buffer_size (consume 2 used) ≡ buffer_size used - 2)
consume_lem_example = consume_lem 2 used used-IsBuffer (omega arith)
