-- ===== src/Codec/Examples.antt =====
-- The byte reader on small inputs.
use mem.Codec.{write_string, new_writer}
use mem.Codec.Reader.{of_vector, read_string, read_uint32, read_bytes, take_bytes}
use mem.Codec.Bounds.{IsBounded, TookString, read_string_bounds}
use mem.Prelude.{ℕ, ◌≡◌, refl, true, some, [], ◌∷◌, List, arith}

abbrev hello : List ℕ
hello = 2 ∷ 0 ∷ 0 ∷ 0 ∷ b'h' ∷ b'i' ∷ b'!' ∷ []

write_hello :
    (write_string (b'h' ∷ b'i' ∷ []) new_writer).1.bytes ≡ 2 ∷ 0 ∷ 0 ∷ 0 ∷ b'h' ∷ b'i' ∷ []
unfolding write_string
write_hello = refl

read_hello : (read_string true (of_vector hello)).0 ≡ some (b'h' ∷ b'i' ∷ [])
unfolding read_string read_uint32 read_bytes take_bytes
read_hello = refl

read_string_bounds_example : TookString hello (of_vector hello) (read_string true (of_vector hello))
read_string_bounds_example = read_string_bounds (omega_bounded) (omega arith)
  where
    omega_bounded : IsBounded hello (of_vector hello)
    omega_bounded = record {
      source = refl;
      stored = omega arith;
      within = omega arith;
      small = omega arith;
    }
