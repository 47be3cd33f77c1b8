-- ===== src/Bytes/Words.antt =====
-- Little-endian words: reading back what was written, and writing back what was read.
use dodb.Bytes.Defs.{le_bytes, from_le, IsByte, slice, eq_bytes}
use dodb.Bytes.Slices.{length-slice}
use dodb.Prelude.{
  take, drop, ◌≤◌, true, ℕ, zero, suc, ◌+◌, ◌*◌, ◌/◌, ◌%◌, ◌^◌, ◌<◌, ◌≡◌, ◌↔◌, refl, sym, ap, ap₂,
  ◌∙◌, List, [], ◌∷◌, arith, length, All,
}
use native.Mathlib.Nat.{pow-suc}

pub length-le_bytes : (n value : ℕ) → length (le_bytes n value) ≡ n
unfolding le_bytes
length-le_bytes zero value = refl
length-le_bytes (suc n) value = ap suc (length-le_bytes n (value / 256))

pub from_le-le_bytes : (n value : ℕ) → value < 256 ^ n → from_le (le_bytes n value) ≡ value
unfolding le_bytes from_le
from_le-le_bytes zero value h = omega arith
from_le-le_bytes (suc n) value h =
    let smaller : value / 256 < 256 ^ n = omega (arith, rw pow-suc at h) in
    omega (arith, from_le-le_bytes n (value / 256) smaller)

pub le_bytes-from_le :
    (bytes : List ℕ) → All IsByte bytes → le_bytes (length bytes) (from_le bytes) ≡ bytes
unfolding le_bytes from_le
le_bytes-from_le [] h = refl
le_bytes-from_le (b ∷ bytes) h =
    ap₂ (λ x xs. x ∷ xs) (let low : (b + 256 * from_le bytes) % 256 ≡ b = omega arith in low)
      (let high : (b + 256 * from_le bytes) / 256 ≡ from_le bytes = omega arith in
        rw high (le_bytes-from_le bytes h.1))

pub from_le_bound : (bytes : List ℕ) → All IsByte bytes → from_le bytes < 256 ^ length bytes
unfolding from_le
from_le_bound [] h = omega arith
from_le_bound (b ∷ bytes) h = rw pow-suc (omega (arith, from_le_bound bytes h.1))

pub from_le-zero : from_le (0 ∷ []) ≡ 0
unfolding from_le
from_le-zero = refl

pub from_le-one : (b : ℕ) → from_le (b ∷ []) ≡ b
unfolding from_le
from_le-one b = omega arith

pub le_bytes-one : (b : ℕ) → b < 256 → le_bytes 1 b ≡ b ∷ []
unfolding le_bytes
le_bytes-one b h = ap (λ x. x ∷ []) (let e : b % 256 ≡ b = omega arith in e)

All-take : (n : ℕ) (bytes : List ℕ) → All IsByte bytes → All IsByte (take n bytes)
All-take zero bytes h = tt
All-take (suc n) [] h = tt
All-take (suc n) (b ∷ bytes) h = (h.0, All-take n bytes h.1)

All-drop : (n : ℕ) (bytes : List ℕ) → All IsByte bytes → All IsByte (drop n bytes)
All-drop zero bytes h = h
All-drop (suc n) [] h = tt
All-drop (suc n) (b ∷ bytes) h = All-drop n bytes h.1

pub All-slice :
    (offset n : ℕ) (bytes : List ℕ) → All IsByte bytes → All IsByte (slice offset n bytes)
unfolding slice
All-slice offset n bytes h = All-take n (drop offset bytes) (All-drop offset bytes h)

-- A word that was read from a buffer of bytes is written back as it stood there.
pub le_bytes-slice :
    (offset n : ℕ) (bytes : List ℕ)
    → All IsByte bytes
    → offset + n ≤ length bytes
    → le_bytes n (from_le (slice offset n bytes)) ≡ slice offset n bytes
le_bytes-slice offset n bytes h fits =
    ap (λ k. le_bytes k (from_le (slice offset n bytes))) (sym (length-slice offset n bytes fits))
    ∙ le_bytes-from_le (slice offset n bytes) (All-slice offset n bytes h)

pub from_le-slice_bound :
    (offset n : ℕ) (bytes : List ℕ)
    → All IsByte bytes
    → offset + n ≤ length bytes
    → from_le (slice offset n bytes) < 256 ^ n
from_le-slice_bound offset n bytes h fits =
    rw (length-slice offset n bytes fits) at
      (from_le_bound (slice offset n bytes) (All-slice offset n bytes h))

same : (xs : List ℕ) → eq_bytes xs xs ≡ true
same [] = refl
same (x ∷ xs) = ground (arith, same xs)

to_eq : (xs ys : List ℕ) → eq_bytes xs ys ≡ true → xs ≡ ys
to_eq [] [] h = refl
to_eq [] (y ∷ ys) h = cc
to_eq (x ∷ xs) [] h = cc
to_eq (x ∷ xs) (y ∷ ys) h = ground (arith, to_eq xs ys)

pub eq_bytes_iff : (xs ys : List ℕ) → (eq_bytes xs ys ≡ true) ↔ (xs ≡ ys)
eq_bytes_iff xs ys = (to_eq xs ys, λ e. rw e (same ys))
