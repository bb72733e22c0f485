-- ===== src/Levels/Laws.antt =====
-- What the operations on a side of the book do to its order and to what it holds.
use sample.Base.{◌≡◌, refl, [], ◌∷◌, none, some, if◌then◌else◌, arith}
use sample.Base.Int.{ℤ, ◌≤ℤ◌, ◌<ℤ◌, ◌==ℤ◌}
use sample.Levels.{Levels, lookup, insert, erase, begin, rbegin}

-- The prices go up, from above `k`.
abbrev pub Above : ℤ → Levels → Type 0
Above k [] = Unit {0}
Above k ((j, w) ∷ m) = (k <ℤ j) × Above j m

abbrev pub IsSorted : Levels → Type 0
IsSorted [] = Unit {0}
IsSorted ((k, v) ∷ m) = Above k m

pub lookup-insert :
    (price at qty : ℤ) (side : Levels)
    → lookup at (insert price qty side) ≡ (if at ==ℤ price then some qty else lookup at side)
unfolding lookup insert
lookup-insert price at qty [] = refl
lookup-insert price at qty ((p, q) ∷ side) = ground (arith, lookup-insert price at qty side)

Above-mono : (i k : ℤ) (m : Levels) → i <ℤ k → Above k m → Above i m
Above-mono i k [] h a = tt
Above-mono i k ((j, w) ∷ m) h a = (omega arith, a.1)

lookup-Above : (j k : ℤ) (m : Levels) → j ≤ℤ k → Above k m → lookup j m ≡ none
unfolding lookup
lookup-Above j k [] h a = refl
lookup-Above j k ((i, w) ∷ m) h a = ground (arith, lookup-Above j i m (omega arith) a.1)

pub Above-IsSorted : (k : ℤ) (m : Levels) → Above k m → IsSorted m
Above-IsSorted k [] a = tt
Above-IsSorted k ((j, w) ∷ m) a = a.1

pub lookup-erase :
    (k j : ℤ) (m : Levels)
    → IsSorted m
    → lookup j (erase k m) ≡ (if j ==ℤ k then none else lookup j m)
unfolding lookup erase
lookup-erase k j [] s = ground arith
lookup-erase k j ((i, w) ∷ m) s =
    ground (arith, lookup-erase k j m (Above-IsSorted i m s), lookup-Above j i m)

insert-Above : (i k v : ℤ) (m : Levels) → i <ℤ k → Above i m → Above i (insert k v m)
unfolding insert
insert-Above i k v [] h a = (h, tt)
insert-Above i k v ((j, w) ∷ m) h a = ground (arith, insert-Above j k v m)

pub insert-IsSorted : (k v : ℤ) (m : Levels) → IsSorted m → IsSorted (insert k v m)
unfolding insert
insert-IsSorted k v [] s = tt
insert-IsSorted k v ((j, w) ∷ m) s = ground (arith, insert-Above j k v m)

erase-Above : (i k : ℤ) (m : Levels) → Above i m → Above i (erase k m)
unfolding erase
erase-Above i k [] a = tt
erase-Above i k ((j, w) ∷ m) a = ground (arith, erase-Above j k m a.1, Above-mono i j m a.0 a.1)

pub erase-IsSorted : (k : ℤ) (m : Levels) → IsSorted m → IsSorted (erase k m)
unfolding erase
erase-IsSorted k [] s = tt
erase-IsSorted k ((j, w) ∷ m) s = ground (arith, erase-Above j k m s, Above-IsSorted j m s)

lookup-gt : (i j q : ℤ) (m : Levels) → Above i m → lookup j m ≡ some q → i <ℤ j
unfolding lookup
lookup-gt i j q [] a e = cc
lookup-gt i j q ((k, w) ∷ m) a e = ground (arith, lookup-gt k j q m a.1)

-- The first entry has the least price.
pub begin_least :
    (m : Levels) (k v : ℤ)
    → IsSorted m
    → begin m ≡ some (k, v)
    → (lookup k m ≡ some v) × ((j q : ℤ) → lookup j m ≡ some q → k ≤ℤ j)
unfolding begin lookup
begin_least [] k v s e = cc
begin_least ((i, w) ∷ m) k v s e = (ground arith, λ j q h. ground (arith, lookup-gt i j q m s))

rbegin-gt : (i : ℤ) (m : Levels) (k v : ℤ) → Above i m → rbegin m ≡ some (k, v) → i <ℤ k
unfolding rbegin
rbegin-gt i [] k v a e = cc
rbegin-gt i ((j, w) ∷ []) k v a e = ground arith
rbegin-gt i ((j, w) ∷ f ∷ m) k v a e = omega (arith, rbegin-gt j (f ∷ m) k v a.1 e)

-- The last entry has the greatest price.
pub rbegin_greatest :
    (m : Levels) (k v : ℤ)
    → IsSorted m
    → rbegin m ≡ some (k, v)
    → (lookup k m ≡ some v) × ((j q : ℤ) → lookup j m ≡ some q → j ≤ℤ k)
unfolding rbegin lookup
rbegin_greatest [] k v s e = cc
rbegin_greatest ((i, w) ∷ []) k v s e = (ground arith, λ j q h. ground arith)
rbegin_greatest ((i, w) ∷ f ∷ m) k v s e =
    let (found, greatest) = rbegin_greatest (f ∷ m) k v (Above-IsSorted i (f ∷ m) s) e in
    let above = rbegin-gt i (f ∷ m) k v s e in
    (ground (arith, found, above), λ j q h. ground (arith, greatest j q, above))
