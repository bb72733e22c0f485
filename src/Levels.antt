-- ===== src/Levels.antt =====
-- `std::map<int, int>`, which holds one side of a book: quantities by price, in the order of prices.
pub mod Laws
use sample.Base.{Bool, List, [], ◌∷◌, Option, none, some, if◌then◌else◌}
use sample.Base.Int.{ℤ, ltb_ℤ, ◌==ℤ◌}

abbrev pub Levels : Type 0
Levels = List (ℤ × ℤ)

unfoldable pub lookup : ℤ → Levels → Option ℤ
lookup k [] = none
lookup k ((j, v) ∷ m) = if k ==ℤ j then some v else lookup k m

-- `m[k] = v`
unfoldable pub insert : ℤ → ℤ → Levels → Levels
insert k v [] = (k, v) ∷ []
insert k v ((j, w) ∷ m) =
    let rest = insert k v m in
    if ltb_ℤ k j then (k, v) ∷ (j, w) ∷ m else if k ==ℤ j then (k, v) ∷ m else (j, w) ∷ rest

-- `m.erase(k)`
unfoldable pub erase : ℤ → Levels → Levels
erase k [] = []
erase k ((j, w) ∷ m) = let rest = erase k m in if k ==ℤ j then m else (j, w) ∷ rest

-- `*m.begin()`; `none` on an empty map, where there is no such element.
unfoldable pub begin : Levels → Option (ℤ × ℤ)
begin [] = none
begin (e ∷ m) = some e

-- `*m.rbegin()`
unfoldable pub rbegin : Levels → Option (ℤ × ℤ)
rbegin [] = none
rbegin (e ∷ []) = some e
rbegin (e ∷ f ∷ m) = rbegin (f ∷ m)
