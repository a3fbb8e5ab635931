-- ===== src/Serialize/Tests.antt =====
-- The formats of src/serialize.h on concrete values.
use ixcoin.Common.{[], ◌∷◌, arith}
use ixcoin.Serialize.{write_compact_size, read_compact_size, write_vector, read_vector}
use ixcoin.Serialize.RoundTrip.{
  Reads, read_compact_size-write_compact_size, read_vector-write_vector,
}

read_compact_size-write_compact_size_example :
    Reads read_compact_size (write_compact_size 70_000) 70_000
read_compact_size-write_compact_size_example =
    read_compact_size-write_compact_size 70_000 (omega arith)

read_vector-write_vector_example : Reads read_vector (write_vector (1 ∷ 2 ∷ [])) (1 ∷ 2 ∷ [])
read_vector-write_vector_example = read_vector-write_vector (1 ∷ 2 ∷ []) (omega arith)
