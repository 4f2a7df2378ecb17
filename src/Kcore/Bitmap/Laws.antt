-- ===== src/Kcore/Bitmap/Laws.antt =====
-- What `set_free`, `set_used` and `allocate` do to the set of free indices.
use native.Mathlib.Decide.{dec_lt}
use tarn_os.Prelude.{ℕ, ◌≡◌, true, false, ◌&&◌, arith, ◌==◌, ltb, if◌then◌else◌}
use tarn_os.Kcore.Bitmap.{Bitmap, capacity, set_free, set_used, is_free}
use tarn_os.Kcore.Bitmap.Valid.{
  IsValid, is_free-free_bit, set_free_out, set_used_out, free_bit-set_free, free_bit-set_used,
  capacity-set_free, capacity-set_used,
}

-- Freeing an index below the capacity makes that index free and no other; freeing one beyond it
-- does nothing.
pub is_free-set_free :
    (b : Bitmap) (index j : ℕ)
    → IsValid b
    → is_free (set_free b index) j
      ≡ (if index == j && ltb index (capacity b) then true else is_free b j)
is_free-set_free b index j v = elim (dec_lt index (capacity b)) [
  | no out ↦ rw (set_free_out b index (omega arith)) (ground (arith))
  | yes h ↦
      rw (is_free-free_bit (set_free b index) j, is_free-free_bit b j)
        (ground (arith, free_bit-set_free b index j v.sized h, capacity-set_free b index))
]

-- Marking an index used makes that index not free and changes no other.
pub is_free-set_used :
    (b : Bitmap) (index j : ℕ)
    → IsValid b
    → is_free (set_used b index) j ≡ (if index == j then false else is_free b j)
is_free-set_used b index j v = elim (dec_lt index (capacity b)) [
  | no out ↦ rw (set_used_out b index (omega arith), is_free-free_bit b j) (ground arith)
  | yes h ↦
      rw (is_free-free_bit (set_used b index) j, is_free-free_bit b j)
        (ground (arith, free_bit-set_used b index j v.sized h, capacity-set_used b index))
]
