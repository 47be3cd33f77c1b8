-- ===== src/Storage/Wal/Write/Steps.antt =====
-- Steps that write to the file of the log: each returns the file as it leaves it, also on an error.
use dodb.Core.Error.{Result}
use dodb.Prelude.{ℕ, ◌≡◌, refl, List, ok, err}

abbrev pub Write : Type 0 → Type 0
Write A = List ℕ → List ℕ × Result A

abbrev pub and_then : {A B : Type 0} → List ℕ × Result A → (A → Write B) → List ℕ × Result B
and_then (file, ok a) next = next a file
and_then (file, err e) next = (file, err e)

infixl 5 ◌>>=◌
abbrev pub ◌>>=◌ : {A B : Type 0} → Write A → (A → Write B) → Write B
◌>>=◌ step next file = and_then (step file) next

infixl 5 ◌>>◌
abbrev pub ◌>>◌ : {B : Type 0} → Write (Unit {0}) → Write B → Write B
◌>>◌ step next = step >>= (λ u. next)

-- A check that writes nothing.
abbrev pub lift : {A : Type 0} → Result A → Write A
lift result file = (file, result)

abbrev pub done : {A : Type 0} → A → Write A
done a file = (file, ok a)

-- If a chain succeeds, so does its first step, and the rest succeeds from there.
pub and_then-eq-ok :
    {A B : Type 0} (start : List ℕ × Result A) (next : A → Write B) {file : List ℕ} {b : B}
    → and_then start next ≡ (file, ok b)
    → (a : A) × (start.1 ≡ ok a) × (next a start.0 ≡ (file, ok b))
and_then-eq-ok (middle, ok a) next h = (a, refl, h)
and_then-eq-ok (middle, err e) next h = cc
