-- ===== src/Wire.antt =====
-- The byte order and the buffers of Go's `encoding/binary`: a byte slice is a list of numbers, an
-- unsigned field of `k` bytes is stored highest byte first. What Go answers by a run-time panic (an
-- index or a slice out of range) is the outcome `panic`.
pub mod Laws
pub mod Struct
pub mod Fields
use ntp.Prelude.{
  ℕ, zero, suc, ◌+◌, ◌*◌, ◌/◌, ◌%◌, ◌^◌, ◌<◌, ◌≡◌, List, [], ◌∷◌, ◌++◌, Result, ok, err, panic,
  Error, eof, unexpected_eof, ◌>>=◌, ltb, ◌==◌, if◌then◌else◌, length, drop, Option, none, some,
}

abbrev pub IsByte : ℕ → Type 0
IsByte b = b < 256

abbrev pub All {ℓ κ} : {A : Type ℓ} → (A → Type κ) → List A → Type κ
All P [] = Unit
All P (x ∷ xs) = P x × All P xs

-- `binary.BigEndian.PutUint16`, `PutUint32` and `PutUint64` are widths 2, 4 and 8.
unfoldable pub put_be : ℕ → ℕ → List ℕ
put_be zero v = []
put_be (suc k) v = (v / 256 ^ k % 256) ∷ put_be k v

-- The next `k` bytes as one number, behind the bytes that were read already.
unfoldable pub read : ℕ → ℕ → List ℕ → Result ℕ
read zero acc bs = ok acc
read (suc k) acc [] = panic
read (suc k) acc (b ∷ bs) = read k (acc * 256 + b) bs

-- `binary.BigEndian.Uint16(b[off:])` and its like: a short slice panics.
abbrev pub get_be : ℕ → ℕ → List ℕ → Result ℕ
get_be k off b = read k 0 (drop off b)

-- What `binary.Read` answers before it decodes a struct of `size` bytes.
unfoldable pub read_full : ℕ → List ℕ → Option Error
read_full size [] = some eof
read_full size (b ∷ bs) = if ltb (length (b ∷ bs)) size then some unexpected_eof else none

-- Writes over the front of a buffer.
unfoldable pub overwrite : List ℕ → List ℕ → Result (List ℕ)
overwrite [] b = ok b
overwrite (x ∷ xs) [] = panic
overwrite (x ∷ xs) (y ∷ b) = overwrite xs b >>= λ t. ok (x ∷ t)

-- `b[off] = x`, `PutUint16(b[off:], v)`: writes in place, and panics where there is no room.
unfoldable pub write_at : ℕ → List ℕ → List ℕ → Result (List ℕ)
write_at zero xs b = overwrite xs b
write_at (suc off) xs [] = panic
write_at (suc off) xs (y ∷ b) = write_at off xs b >>= λ t. ok (y ∷ t)

-- A row of writes, each an offset and its bytes.
unfoldable pub write_fields : List (ℕ × List ℕ) → List ℕ → Result (List ℕ)
write_fields [] b = ok b
write_fields ((off, xs) ∷ fs) b = write_at off xs b >>= write_fields fs
