-- ===== src/Market/Changes.antt =====
-- What the levels of a message do to a side of the book, stated without the loops: the last entry
-- for a price counts.
use mathlib.Core.Option
use sample.Base.{
  ℕ, zero, suc, ◌+◌, List, [], ◌∷◌, Option, none, some, ◌≡◌, refl, sym, ◌∙◌, if◌then◌else◌, arith,
  Option-cases, inl, inr,
}
use sample.Base.Int.{ℤ, pos, ◌==ℤ◌}
use sample.External.{Rapidjson}
use sample.Levels
use sample.Levels.{Levels, lookup}
use sample.Levels.Laws.{IsSorted, lookup-insert, lookup-erase, insert-IsSorted, erase-IsSorted}
use sample.Market.Book.{◌>>=◌, put, change_bid, change_ask, read_level, each_level, all_levels}

-- The quantity that the last of the entries for `price` gives.
abbrev pub last_for : ℤ → List (ℤ × ℤ) → Option ℤ
last_for price [] = none
last_for price ((k, qty) ∷ ls) = elim (last_for price ls) [
  | some later ↦ some later
  | none ↦ if price ==ℤ k then some qty else none
]

-- A quantity of an incremental message: zero stands for a level that is gone.
abbrev pub nonzero : ℤ → Option ℤ
nonzero qty = if qty ==ℤ pos 0 then none else some qty

-- What the book holds at a price after a message, given the message's last entry for it.
abbrev pub held : (ℤ → Option ℤ) → Option ℤ → Option ℤ → Option ℤ
held kept (some qty) old = kept qty
held kept none old = old

-- `change` sets the level of one price to what `kept` makes of the quantity.
abbrev pub Sets : (ℤ → ℤ → Levels → Levels) → (ℤ → Option ℤ) → Type 0
Sets change kept =
    (k qty : ℤ) (m : Levels)
    → IsSorted m
    → IsSorted (change k qty m)
      × ((p : ℤ) → lookup p (change k qty m) ≡ (if p ==ℤ k then kept qty else lookup p m))

pub put-Sets : Sets put some
put-Sets k qty m s = (insert-IsSorted k qty m s, λ p. lookup-insert k p qty m)

pub change_bid-Sets : Sets change_bid nonzero
unfolding change_bid
change_bid-Sets k qty m s = (
  ground (arith, insert-IsSorted k qty m s, erase-IsSorted k m s),
  λ p. ground (arith, lookup-insert k p qty m, lookup-erase k p m s),
)

pub change_ask-Sets : Sets change_ask nonzero
unfolding change_ask
change_ask-Sets k qty m s =
    let n = Levels.insert k qty m in
    let t = insert-IsSorted k qty m s in
    (
      ground (arith, insert-IsSorted k qty n t, erase-IsSorted k n t),
      λ p. ground (arith, lookup-insert k p qty m, lookup-insert k p qty n, lookup-erase k p n t),
    )

abbrev pub apply_all : (ℤ → ℤ → Levels → Levels) → List (ℤ × ℤ) → Levels → Levels
apply_all change [] m = m
apply_all change ((k, qty) ∷ ls) m = apply_all change ls (change k qty m)

pub apply_all_lem :
    (change : ℤ → ℤ → Levels → Levels) (kept : ℤ → Option ℤ)
    → Sets change kept
    → (ls : List (ℤ × ℤ)) (m : Levels) → IsSorted m
    → IsSorted (apply_all change ls m)
      × ((p : ℤ) → lookup p (apply_all change ls m) ≡ held kept (last_for p ls) (lookup p m))
apply_all_lem change kept sets [] m s = (s, λ p. refl)
apply_all_lem change kept sets ((k, qty) ∷ ls) m s =
    let (t, one) = sets k qty m s in
    let (u, rest) = apply_all_lem change kept sets ls (change k qty m) t in
    (u, λ p. ground (arith, one p, rest p))

module _ (J : Rapidjson) where
  open J use {Value, size, element}

  -- The levels of a message, as far as they can be read.
  abbrev pub read_from : Value → (left i : ℕ) → Option (List (ℤ × ℤ))
  read_from levels zero i = some []
  read_from levels (suc left) i = element levels i >>= λ d.
      read_level J d >>= λ l. Option.map (λ ls. l ∷ ls) (read_from levels left (i + 1))

  abbrev pub read_levels : Value → Option (List (ℤ × ℤ))
  read_levels levels = size levels >>= λ n. read_from levels n 0

  -- One round: what is read is applied first.
  read_on :
      (change : ℤ → ℤ → Levels → Levels) (levels : Value) (left i : ℕ) (m : Levels)
      (l : Option (ℤ × ℤ))
      → ((p : ℤ × ℤ)
          → each_level J change levels left (i + 1) (change p.0 p.1 m)
            ≡ Option.map
                (λ ls. apply_all change ls (change p.0 p.1 m))
                (read_from levels left (i + 1)))
      → (l >>= λ p. each_level J change levels left (i + 1) (change p.0 p.1 m))
        ≡ Option.map
            (λ ls. apply_all change ls m)
            (l >>= λ p. Option.map (λ ls. p ∷ ls) (read_from levels left (i + 1)))
  read_on change levels left i m none ih = refl
  read_on change levels left i m (some (k, q)) ih =
      ih (k, q)
      ∙ sym (
          Option.map-map (λ ls. apply_all change ls m) (λ ls. (k, q) ∷ ls)
            (read_from levels left (i + 1)))

  each_level-read_from :
      (change : ℤ → ℤ → Levels → Levels) (levels : Value) (left i : ℕ) (m : Levels)
      → each_level J change levels left i m
        ≡ Option.map (λ ls. apply_all change ls m) (read_from levels left i)
  unfolding each_level
  each_level-read_from change levels zero i m = refl
  each_level-read_from change levels (suc left) i m = elim (Option-cases (element levels i)) [
    | inl e ↦ rw e
    | inr (d, e) ↦ rw e (
        read_on change levels left i m (read_level J d)
          (λ p. each_level-read_from change levels left (i + 1) (change p.0 p.1 m)))
  ]

  pub all_levels-read_levels :
      (change : ℤ → ℤ → Levels → Levels) (levels : Value) (m : Levels)
      → all_levels J change levels m ≡ Option.map (λ ls. apply_all change ls m) (read_levels levels)
  unfolding all_levels
  all_levels-read_levels change levels m = elim (Option-cases (size levels)) [
    | inl e ↦ rw e
    | inr (n, e) ↦ rw e (each_level-read_from change levels n 0 m)
  ]

  -- The loop over a side applies the levels that it reads, in their order.
  pub all_levels_lem :
      (change : ℤ → ℤ → Levels → Levels) (kept : ℤ → Option ℤ)
      → Sets change kept
      → (levels : Value) (m m' : Levels) → IsSorted m
      → all_levels J change levels m ≡ some m'
      → (ls : List (ℤ × ℤ)) × (read_levels levels ≡ some ls)
        × IsSorted m'
        × ((p : ℤ) → lookup p m' ≡ held kept (last_for p ls) (lookup p m))
  all_levels_lem change kept sets levels m m' s e =
      let (ls, read, same) =
        (Option.map-eq-some_iff _ _).0 (sym (all_levels-read_levels change levels m) ∙ e) in
      let (sorted, holds) = apply_all_lem change kept sets ls m s in
      (ls, read, rw (← same) sorted, rw (← same) holds)
