-- ===== src/Base/Dict.antt =====
-- `std::unordered_map` with `std::string` keys, as an association list with distinct keys.
use Prim.Native.String.{String}
use mathlib.Core.Path.{◌≡◌, refl}
use mathlib.Core.List.{List, [], ◌∷◌}
use mathlib.Core.Option.{Option, none, some}
use native.Mathlib.Omega.{arith}
use text.Mathlib.Text.{◌==◌}
use text.Mathlib.TextEquality.{eq_iff}
use sample.Base.Tests.{if◌then◌else◌}

module _ {ℓ} {V : Type ℓ} where
  unfoldable pub lookup : String → List (String × V) → Option V
  lookup wanted [] = none
  lookup wanted (entry ∷ rest) =
      let later = lookup wanted rest in if entry.0 == wanted then some entry.1 else later

  -- `dict[name] = value`
  unfoldable pub insert : String → V → List (String × V) → List (String × V)
  insert name value [] = (name, value) ∷ []
  insert name value (entry ∷ rest) =
      let after = insert name value rest in
      if entry.0 == name then (name, value) ∷ rest else entry ∷ after

  -- An assignment to `name` is seen under that name alone.
  pub lookup-insert :
      (name wanted : String) (value : V) (dict : List (String × V))
      → lookup wanted (insert name value dict)
        ≡ (if name == wanted then some value else lookup wanted dict)
  unfolding lookup insert
  lookup-insert name wanted value [] = refl
  lookup-insert name wanted value ((first, held) ∷ rest) =
      let later = lookup-insert name wanted value rest in
      ground (arith, later, eq_iff first wanted, eq_iff first name, eq_iff name wanted)

-- What `dict[name]` returns, and the map after it: a missing key is inserted with the value `fresh`.
unfoldable pub get_or_insert {ℓ} :
    {V : Type ℓ} → String → V → List (String × V) → V × List (String × V)
unfolding lookup
get_or_insert name fresh dict = elim (lookup name dict) [
  | some held ↦ (held, dict)
  | none ↦ (fresh, insert name fresh dict)
]
