-- ===== src/Bytes/Slices.antt =====
-- Reading a buffer after a write: inside the written range, before it and behind it.
use dodb.Bytes.Defs.{slice, copy_at, zeros}
use dodb.Prelude.{
  ℕ, zero, suc, ◌+◌, ◌-◌, ◌≤◌, ◌≡◌, refl, sym, ap, ◌∙◌, List, [], ◌∷◌, ◌++◌, arith, length, take,
  drop, length-append, length-take, length-drop, drop-drop, take-append-drop, take-length_append,
}

pub length-zeros : (n : ℕ) → length (zeros n) ≡ n
unfolding zeros
length-zeros zero = refl
length-zeros (suc n) = ap suc (length-zeros n)

pub length-copy_at :
    (offset n : ℕ) (source dest : List ℕ)
    → length source ≡ n
    → offset + n ≤ length dest
    → length (copy_at offset n source dest) ≡ length dest
unfolding copy_at
length-copy_at zero n source dest h fits =
    omega (arith, length-append source (drop n dest), length-drop n dest)
length-copy_at (suc offset) n source [] h fits = refl
length-copy_at (suc offset) n source (d ∷ dest) h fits =
    ap suc (length-copy_at offset n source dest h (omega arith))

pub length-slice :
    (offset n : ℕ) (bytes : List ℕ) → offset + n ≤ length bytes → length (slice offset n bytes) ≡ n
unfolding slice
length-slice offset n bytes h =
    omega (arith, length-take n (drop offset bytes), length-drop offset bytes)

-- A read of the written range.
pub slice-copy_at_self :
    (offset n : ℕ) (source dest : List ℕ)
    → length source ≡ n
    → offset + n ≤ length dest
    → slice offset n (copy_at offset n source dest) ≡ source
unfolding slice copy_at
slice-copy_at_self zero n source dest h fits =
    rw (← h) (take-length_append source (drop (length source) dest))
slice-copy_at_self (suc offset) n source [] h fits = absurd (omega arith)
slice-copy_at_self (suc offset) n source (d ∷ dest) h fits =
    slice-copy_at_self offset n source dest h (omega arith)

take-copy_at :
    (n offset m : ℕ) (source dest : List ℕ)
    → n ≤ offset
    → take n (copy_at offset m source dest) ≡ take n dest
unfolding copy_at
take-copy_at zero offset m source dest h = refl
take-copy_at (suc n) zero m source dest h = absurd (omega arith)
take-copy_at (suc n) (suc offset) m source [] h = refl
take-copy_at (suc n) (suc offset) m source (d ∷ dest) h =
    ap (λ l. d ∷ l) (take-copy_at n offset m source dest (omega arith))

pub slice-copy_at_before :
    (o n offset m : ℕ) (source dest : List ℕ)
    → o + n ≤ offset
    → slice o n (copy_at offset m source dest) ≡ slice o n dest
unfolding slice copy_at
slice-copy_at_before zero n offset m source dest h =
    take-copy_at n offset m source dest (omega arith)
slice-copy_at_before (suc o) n zero m source dest h = absurd (omega arith)
slice-copy_at_before (suc o) n (suc offset) m source [] h = refl
slice-copy_at_before (suc o) n (suc offset) m source (d ∷ dest) h =
    slice-copy_at_before o n offset m source dest (omega arith)

drop-append_ge :
    (xs ys : List ℕ) (n : ℕ) → length xs ≤ n → drop n (xs ++ ys) ≡ drop (n - length xs) ys
drop-append_ge [] ys n h = let e : n - 0 ≡ n = omega arith in rw e
drop-append_ge (x ∷ xs) ys zero h = absurd (omega arith)
drop-append_ge (x ∷ xs) ys (suc n) h =
    let e : suc n - suc (length xs) ≡ n - length xs = omega arith in
    rw e (drop-append_ge xs ys n (omega arith))

-- What stands behind the written range is kept.
pub drop-copy_at_behind :
    (o offset n : ℕ) (source dest : List ℕ)
    → length source ≡ n
    → offset + n ≤ o
    → drop o (copy_at offset n source dest) ≡ drop o dest
unfolding copy_at
drop-copy_at_behind o zero n source dest h far =
    drop-append_ge source (drop n dest) o (omega arith)
    ∙ drop-drop n (o - length source) dest
    ∙ ap (λ k. drop k dest) (omega arith)
drop-copy_at_behind zero (suc offset) n source dest h far = absurd (omega arith)
drop-copy_at_behind (suc o) (suc offset) n source [] h far = refl
drop-copy_at_behind (suc o) (suc offset) n source (d ∷ dest) h far =
    drop-copy_at_behind o offset n source dest h (omega arith)

pub slice-copy_at_behind :
    (o n offset m : ℕ) (source dest : List ℕ)
    → length source ≡ m
    → offset + m ≤ o
    → slice o n (copy_at offset m source dest) ≡ slice o n dest
unfolding slice
slice-copy_at_behind o n offset m source dest h far =
    ap (take n) (drop-copy_at_behind o offset m source dest h far)

pub drop-zeros : (n m : ℕ) → drop n (zeros m) ≡ zeros (m - n)
unfolding zeros
drop-zeros zero m = let e : m - 0 ≡ m = omega arith in rw e
drop-zeros (suc n) zero = let e : 0 - suc n ≡ 0 = omega arith in rw e
drop-zeros (suc n) (suc m) = let e : suc m - suc n ≡ m - n = omega arith in rw e (drop-zeros n m)

-- A buffer is cut at an offset.
pub slice-append-drop :
    (offset n : ℕ) (bytes : List ℕ)
    → slice offset n bytes ++ drop (offset + n) bytes ≡ drop offset bytes
unfolding slice
slice-append-drop offset n bytes =
    ap (λ l. take n (drop offset bytes) ++ l) (sym (drop-drop offset n bytes))
    ∙ take-append-drop n (drop offset bytes)

-- The buffer `old` after its first `n` bytes are overwritten with those of `new`.
abbrev pub torn_write : ℕ → List ℕ → List ℕ → List ℕ
torn_write n new old = take n new ++ drop n old

pub length-torn_write :
    (n : ℕ) (new old : List ℕ)
    → length new ≡ length old
    → length (torn_write n new old) ≡ length old
length-torn_write n new old h =
    omega (arith, length-append (take n new) (drop n old), length-take n new, length-drop n old)

same_tail : (x y : ℕ) (xs ys : List ℕ) → x ∷ xs ≡ y ∷ ys → xs ≡ ys
same_tail x y xs ys h = cc

take-torn_write :
    (k n : ℕ) (new old : List ℕ)
    → length new ≡ length old
    → take k new ≡ take k old
    → take k (torn_write n new old) ≡ take k old
take-torn_write k zero new old h same = refl
take-torn_write k (suc n) [] [] h same = refl
take-torn_write k (suc n) [] (y ∷ old) h same = absurd (omega arith)
take-torn_write k (suc n) (x ∷ new) [] h same = absurd (omega arith)
take-torn_write zero (suc n) (x ∷ new) (y ∷ old) h same = refl
take-torn_write (suc k) (suc n) (x ∷ new) (y ∷ old) h same =
    let rest =
      take-torn_write k n new old (omega arith) (same_tail x y (take k new) (take k old) same) in
    cc

-- A part of the buffer that both contents agree on is what a torn write leaves there.
pub slice-torn_write :
    (o k n : ℕ) (new old : List ℕ)
    → length new ≡ length old
    → slice o k new ≡ slice o k old
    → slice o k (torn_write n new old) ≡ slice o k old
unfolding slice
slice-torn_write zero k n new old h same = take-torn_write k n new old h same
slice-torn_write (suc o) k zero new old h same = refl
slice-torn_write (suc o) k (suc n) [] [] h same = refl
slice-torn_write (suc o) k (suc n) [] (y ∷ old) h same = absurd (omega arith)
slice-torn_write (suc o) k (suc n) (x ∷ new) [] h same = absurd (omega arith)
slice-torn_write (suc o) k (suc n) (x ∷ new) (y ∷ old) h same =
    slice-torn_write o k n new old (omega arith) same
