-- ===== src/Buffer/Tests.antt =====
-- A concrete buffer.
use protos_tpe_g.Prelude.{[], ◌∷◌, ◌++◌, arith, ltb, if◌then◌else◌}
use protos_tpe_g.Buffer.{Buffer, buffer_write}
use protos_tpe_g.Buffer.{buffer_read}
use protos_tpe_g.Buffer.Reading.{Reads, buffer_read-Reads}
use protos_tpe_g.Buffer.Invariant.{IsValid}
use protos_tpe_g.Buffer.Queue.{contents, Yields, buffer_write-Yields}

abbrev half : Buffer
half = record { memory = 1 ∷ 2 ∷ 3 ∷ 4 ∷ []; limit = 4; read = 1; write = 3 }

half-IsValid : IsValid half
half-IsValid = omega arith

write_example :
    Yields
      (buffer_write half 9)
      half.limit
      (if ltb half.write half.limit then contents half ++ (9 ∷ []) else contents half)
write_example = buffer_write-Yields half 9 half-IsValid

read_example : Reads half (buffer_read half)
read_example = buffer_read-Reads half half-IsValid (omega arith)
