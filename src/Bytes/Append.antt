-- ===== src/Bytes/Append.antt =====
-- Reads and writes in a buffer that is given as a sequence of parts.
use dodb.Bytes.Defs.{slice, copy_at, zeros}
use dodb.Prelude.{
  ℕ, zero, suc, ◌+◌, ◌≤◌, ◌≡◌, refl, ap, ◌∙◌, List, [], ◌∷◌, ◌++◌, arith, length, take, drop,
  take-length_append,
}

-- A write leaves what stands before and behind its range.
pub copy_at-split :
    (offset n : ℕ) (source dest : List ℕ)
    → offset ≤ length dest
    → copy_at offset n source dest ≡ take offset dest ++ (source ++ drop (offset + n) dest)
unfolding copy_at
copy_at-split zero n source dest h = let e : zero + n ≡ n = omega arith in rw e
copy_at-split (suc offset) n source [] h = absurd (omega arith)
copy_at-split (suc offset) n source (d ∷ dest) h =
    let e : suc offset + n ≡ suc (offset + n) = omega arith in
    rw e (ap (λ l. d ∷ l) (copy_at-split offset n source dest (omega arith)))

pub copy_at-append :
    (front : List ℕ) (k n : ℕ) (source dest : List ℕ)
    → copy_at (length front + k) n source (front ++ dest) ≡ front ++ copy_at k n source dest
unfolding copy_at
copy_at-append [] k n source dest = let e : 0 + k ≡ k = omega arith in rw e
copy_at-append (x ∷ front) k n source dest =
    let e : suc (length front) + k ≡ suc (length front + k) = omega arith in
    rw e (ap (λ l. x ∷ l) (copy_at-append front k n source dest))

pub slice-append :
    (front : List ℕ) (k n : ℕ) (bytes : List ℕ)
    → slice (length front + k) n (front ++ bytes) ≡ slice k n bytes
unfolding slice
slice-append [] k n bytes = let e : 0 + k ≡ k = omega arith in rw e
slice-append (x ∷ front) k n bytes =
    let e : suc (length front) + k ≡ suc (length front + k) = omega arith in
    rw e (slice-append front k n bytes)

-- The part that begins behind `front`.
pub slice-part :
    (front part back : List ℕ) {offset : ℕ}
    → offset ≡ length front
    → slice offset (length part) (front ++ (part ++ back)) ≡ part
slice-part front part back e =
    ap (λ o. slice o (length part) (front ++ (part ++ back))) (e ∙ (omega arith))
    ∙ slice-append front 0 (length part) (part ++ back)
    ∙ unfold slice in take-length_append part back

pub zeros-add : (m n : ℕ) → zeros (m + n) ≡ zeros m ++ zeros n
unfolding zeros
zeros-add zero n = let e : zero + n ≡ n = omega arith in rw e
zeros-add (suc m) n =
    let e : suc m + n ≡ suc (m + n) = omega arith in rw e (ap (λ l. 0 ∷ l) (zeros-add m n))

pub take-zeros_le : (n m : ℕ) → n ≤ m → take n (zeros m) ≡ zeros n
unfolding zeros
take-zeros_le zero m h = refl
take-zeros_le (suc n) zero h = absurd (omega arith)
take-zeros_le (suc n) (suc m) h = ap (λ l. 0 ∷ l) (take-zeros_le n m (omega arith))
