-- ===== src/Wire/Laws.antt =====
-- Reading what was written, and writes that follow one another in a buffer.
use ntp.Prelude.{
  ℕ, zero, suc, ◌+◌, ◌*◌, ◌/◌, ◌%◌, ◌^◌, ◌<◌, ◌≤◌, ◌≡◌, refl, ap, ◌∙◌, List, [], ◌∷◌, ◌++◌, Result,
  ok, err, panic, out_of_fuel, ◌⊎◌, inl, inr, ◌>>=◌, length, drop, take, length-append, length-drop,
  replicate, arith,
}
use ntp.Prelude.Bits.{mod_split}
use ntp.Wire.{IsByte, All, put_be, read, overwrite, write_at, write_fields}
use native.Mathlib.Nat.{
  pow-suc, one-le-pow, div-div-eq-div-mul, mod-eq_of_lt, mul_comm, div-add-mod, mod-lt,
}
use mathlib.Core.List.{append_assoc}

pub length-put_be : (k v : ℕ) → length (put_be k v) ≡ k
unfolding put_be
length-put_be zero v = refl
length-put_be (suc k) v = ap suc (length-put_be k v)

put_be-IsByte : (k v : ℕ) → All IsByte (put_be k v)
unfolding put_be
put_be-IsByte zero v = tt
put_be-IsByte (suc k) v = (omega arith, put_be-IsByte k v)

-- Reading `k` bytes gives the number that was put there, less what `k` bytes cannot hold.
read-put_be_mod :
    (k acc v : ℕ) (rest : List ℕ)
    → read k acc (put_be k v ++ rest) ≡ ok (acc * 256 ^ k + v % 256 ^ k)
unfolding read put_be
read-put_be_mod zero acc v rest = ap ok (omega arith)
read-put_be_mod (suc k) acc v rest =
    read-put_be_mod k (acc * 256 + v / 256 ^ k % 256) v rest
    ∙ ap ok (
        omega (
          arith,
          mod_split v (256 ^ k) 256 (one-le-pow k 256 (omega arith)) (omega arith),
          ap (λ (t : ℕ). v % t) (pow-suc 256 k),
          ap (λ (t : ℕ). acc * t) (pow-suc 256 k),
          ap (λ (t : ℕ). v % t) (mul_comm (256 ^ k) 256),
        ))

-- A number that fits is read back unchanged.
pub read-put_be : (k v : ℕ) (rest : List ℕ) → v < 256 ^ k → read k 0 (put_be k v ++ rest) ≡ ok v
read-put_be k v rest h =
    read-put_be_mod k 0 v rest ∙ ap ok (omega (arith, mod-eq_of_lt {n = v} {m = 256 ^ k} h))

-- A read that succeeds determines the bytes that were read.
pub put_be-read_acc :
    (k acc v : ℕ) (bs : List ℕ)
    → All IsByte bs
    → read k acc bs ≡ ok v
    → (put_be k v ≡ take k bs) × (v / 256 ^ k ≡ acc)
unfolding read put_be
put_be-read_acc zero acc v bs h e = (refl, ground arith)
put_be-read_acc (suc k) acc v [] h e = cc
put_be-read_acc (suc k) acc v (b ∷ bs) h e =
    let (low, high) = put_be-read_acc k (acc * 256 + b) v bs h.1 e in
    ground (arith, low, high, pow-suc 256 k, div-div-eq-div-mul v (256 ^ k) 256)

-- Bytes written one after the other behind what is written already, each row fitting the buffer.
abbrev pub bytes_of : List (ℕ × List ℕ) → List ℕ
bytes_of [] = []
bytes_of ((off, xs) ∷ fs) = xs ++ bytes_of fs

abbrev pub Consecutive : ℕ → List (ℕ × List ℕ) → Type 0
Consecutive off [] = Unit
Consecutive off ((o, xs) ∷ fs) = (o ≡ off) × Consecutive (off + length xs) fs

overwrite_fits :
    (xs b : List ℕ) → length xs ≤ length b → overwrite xs b ≡ ok (xs ++ drop (length xs) b)
unfolding overwrite
overwrite_fits [] b h = refl
overwrite_fits (x ∷ xs) [] h = absurd (omega arith)
overwrite_fits (x ∷ xs) (y ∷ b) h = rw (overwrite_fits xs b (omega arith))

write_at_fits :
    (done xs b : List ℕ)
    → length xs ≤ length b
    → write_at (length done) xs (done ++ b) ≡ ok (done ++ (xs ++ drop (length xs) b))
unfolding write_at
write_at_fits [] xs b h = overwrite_fits xs b h
write_at_fits (d ∷ done) xs b h = rw (write_at_fits done xs b h)

drop-nil : (n : ℕ) → drop {A = ℕ} n [] ≡ []
drop-nil zero = refl
drop-nil (suc n) = refl

pub drop-drop :
    (xs ys b : List ℕ) → drop (length ys) (drop (length xs) b) ≡ drop (length (xs ++ ys)) b
drop-drop [] ys b = refl
drop-drop (x ∷ xs) ys [] = drop-nil (length ys)
drop-drop (x ∷ xs) ys (y ∷ b) = drop-drop xs ys b

pub write_fields_behind :
    (fs : List (ℕ × List ℕ)) (done b : List ℕ)
    → Consecutive (length done) fs
    → length (bytes_of fs) ≤ length b
    → write_fields fs (done ++ b) ≡ ok (done ++ (bytes_of fs ++ drop (length (bytes_of fs)) b))
unfolding write_fields
write_fields_behind [] done b c h = refl
write_fields_behind ((off, xs) ∷ fs) done b c h =
    let room : length xs + length (bytes_of fs) ≤ length b =
      omega (arith, length-append xs (bytes_of fs)) in
    let next : Consecutive (length (done ++ xs)) fs = rw (length-append done xs) c.1 in
    let ih =
      write_fields_behind fs (done ++ xs) (drop (length xs) b) next
        (omega (arith, length-drop (length xs) b)) in
    rw (
      c.0,
      write_at_fits done xs b (omega arith),
      ← append_assoc done xs (drop (length xs) b),
      ih,
      append_assoc done xs,
      drop-drop xs (bytes_of fs) b,
      append_assoc xs (bytes_of fs),
    )

-- A row of writes that starts at the front of a buffer large enough replaces the front by the
-- fields, one after the other, keeps what lies behind them, and does not panic.
pub write_fields_fits :
    (fs : List (ℕ × List ℕ)) (b : List ℕ)
    → Consecutive 0 fs
    → length (bytes_of fs) ≤ length b
    → write_fields fs b ≡ ok (bytes_of fs ++ drop (length (bytes_of fs)) b)
write_fields_fits fs b c h = write_fields_behind fs [] b c h

-- What `k` bytes give is below 256 ^ k.
pub read-lt : (k : ℕ) (bs : List ℕ) (v : ℕ) → All IsByte bs → read k 0 bs ≡ ok v → v < 256 ^ k
read-lt k bs v h e =
    let p : 0 < 256 ^ k = one-le-pow k 256 (omega arith) in
    let z : v / 256 ^ k ≡ 0 = (put_be-read_acc k 0 v bs h e).1 in
    omega (arith, div-add-mod v (256 ^ k), mod-lt v p, ap (λ (t : ℕ). 256 ^ k * t) z)

pub All-append {ℓ κ} :
    {A : Type ℓ} (P : A → Type κ) (xs ys : List A) → All P xs → All P ys → All P (xs ++ ys)
All-append P [] ys h k = k
All-append P (x ∷ xs) ys h k = (h.0, All-append P xs ys h.1 k)

pub All-replicate {ℓ κ} :
    {A : Type ℓ} (P : A → Type κ) (n : ℕ) (a : A) → P a → All P (replicate n a)
All-replicate P zero a h = tt
All-replicate P (suc n) a h = (h, All-replicate P n a h)

pub write_fields-append :
    (fs gs : List (ℕ × List ℕ)) (b : List ℕ)
    → write_fields (fs ++ gs) b ≡ (write_fields fs b >>= write_fields gs)
unfolding write_fields
write_fields-append [] gs b = refl
write_fields-append ((off, xs) ∷ fs) gs b =
    elim (write_at off xs b)
      as (λ r. (r >>= write_fields (fs ++ gs)) ≡ ((r >>= write_fields fs) >>= write_fields gs)) [
        | ok b' ↦ write_fields-append fs gs b'
        | err e ↦ refl
        | panic ↦ refl
        | out_of_fuel ↦ refl
      ]

pub drop-length_append : (xs ys : List ℕ) → drop (length xs) (xs ++ ys) ≡ ys
drop-length_append [] ys = refl
drop-length_append (x ∷ xs) ys = drop-length_append xs ys

-- A read runs past the end of a short input, and otherwise gives a number.
pub read_short : (k acc : ℕ) (b : List ℕ) → length b < k → read k acc b ≡ panic
unfolding read
read_short zero acc b h = absurd (omega arith)
read_short (suc k) acc [] h = refl
read_short (suc k) acc (x ∷ b) h = read_short k (acc * 256 + x) b (omega arith)

read_cases : (k acc : ℕ) (b : List ℕ) → (read k acc b ≡ panic) ⊎ ((v : ℕ) × (read k acc b ≡ ok v))
unfolding read
read_cases zero acc b = inr (acc, refl)
read_cases (suc k) acc [] = inl refl
read_cases (suc k) acc (x ∷ b) = read_cases k (acc * 256 + x) b

-- What follows a read panics in any case: so does the whole.
pub read->>=_panic {ℓ} :
    {A : Type ℓ} (k acc : ℕ) (b : List ℕ) (f : ℕ → Result A)
    → ((v : ℕ) → f v ≡ panic)
    → (read k acc b >>= f) ≡ panic
read->>=_panic k acc b f h = elim (read_cases k acc b) [ inl e ↦ rw e | inr (v, e) ↦ rw e (h v) ]
