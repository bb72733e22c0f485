-- ===== src/Queues/Spmc/Readers.antt =====
-- Which message a reader finds at an index.
use native.Mathlib.Nat.{add-mod_right}
use sample.Base.{
  ℕ, zero, suc, ◌+◌, ◌%◌, ◌≤◌, ◌<◌, List, [], ◌∷◌, ◌++◌, ◌∷ʳ◌, some, some-inj, ◌≡◌, ◌⊎◌, inl, inr,
  refl, sym, ap, ◌∙◌, arith, length, length-append, get_elem?, append_assoc, append-nil,
}
use mathlib.Core.Path.{subst}
use sample.Queues.Blocks.{Blocks, put, put_here, put_elsewhere}
use sample.Queues.Spmc.{Spmc, fill, emplace, emplace_all, pop}

get_elem?-append-cases :
    {T : Type 0} (vs : List T) (v x : T) (i : ℕ)
    → get_elem? (vs ∷ʳ v) i ≡ some x
    → (get_elem? vs i ≡ some x) ⊎ ((i ≡ length vs) × (v ≡ x))
get_elem?-append-cases [] v x zero e = inr (refl, some-inj e)
get_elem?-append-cases [] v x (suc i) e = cc
get_elem?-append-cases (w ∷ vs) v x zero e = inl e
get_elem?-append-cases (w ∷ vs) v x (suc i) e = elim (get_elem?-append-cases vs v x i e) [
  | inl before ↦ inl before
  | inr (last, same) ↦ inr (ap suc last, same)
]

get_elem?-lt : {T : Type 0} (vs : List T) (x : T) (i : ℕ) → get_elem? vs i ≡ some x → i < length vs
get_elem?-lt [] x i e = cc
get_elem?-lt (w ∷ vs) x zero e = omega arith
get_elem?-lt (w ∷ vs) x (suc i) e = omega (arith, get_elem?-lt vs x i e)

next_index : (i w : ℕ) → i ≡ w → i + 1 ≡ w + 1
next_index i w e = omega arith

round : (i size : ℕ) → i + 1 + size ≡ i + size + 1
round i size = omega arith

module _ {T : Type 0} (size : ℕ) where
  -- `vs` were published, the first under index 1, and the latest of them, as many as there are blocks
  -- less `margin`, are in their blocks.
  pub record Logged (margin : ℕ) (vs : List T) (q : Spmc T) : Type 0 where
    pub counted : q.write_idx ≡ length vs
    pub kept :
        (i : ℕ) (x : T)
        → get_elem? vs i ≡ some x
        → length vs + margin ≤ i + size
        → pop size (i + 1) q ≡ x

  fill-Logged :
      (v : T) (vs : List T) (q : Spmc T) → Logged 0 vs q → Logged 1 vs (fill size (λ old. v) q)
  unfolding fill pop
  fill-Logged v vs q l = record {
    counted = l.counted;
    kept = λ i x e near.
        put_elsewhere size q.blks v (i + 1) (q.write_idx + 1)
          (omega (arith, l.counted, get_elem?-lt vs x i e)) (omega (arith, l.counted))
        ∙ l.kept i x e (omega arith);
  }

  publish-Logged :
      (v : T) (vs : List T) (q : Spmc T) → Logged 0 vs q → Logged 0 (vs ∷ʳ v) (emplace size v q)
  unfolding emplace pop
  publish-Logged v vs q l = record {
    counted = omega (arith, l.counted, length-append vs (v ∷ []));
    kept = λ i x e near. elim (get_elem?-append-cases vs v x i e) [
      | inl before ↦
          (fill-Logged v vs q l).kept i x before (omega (arith, length-append vs (v ∷ [])))
      | inr (last, same) ↦
          ap (λ (k : ℕ). put ((q.write_idx + 1) % size) v q.blks (k % size))
            (next_index i q.write_idx (last ∙ sym l.counted))
          ∙ put_here q.blks v ((q.write_idx + 1) % size)
          ∙ same
    ];
  }

  emplace_all-Logged :
      (vs before : List T) (q : Spmc T)
      → Logged 0 before q
      → Logged 0 (before ++ vs) (emplace_all size vs q)
  unfolding emplace_all
  emplace_all-Logged [] before q l =
      subst (λ (ws : List T). Logged 0 ws q) (sym (append-nil before)) l
  emplace_all-Logged (v ∷ vs) before q l =
      subst (λ (ws : List T). Logged 0 ws (emplace_all size vs (emplace size v q)))
        (append_assoc before (v ∷ []) vs)
        (emplace_all-Logged vs (before ∷ʳ v) (emplace size v q) (publish-Logged v before q l))

  -- A queue in shared memory that is zero, after `vs` were pushed.
  abbrev pub after_all : Blocks T → List T → Spmc T
  after_all blks vs = emplace_all size vs (record { write_idx = 0; blks = blks })

  after_all-Logged : (blks : Blocks T) (vs : List T) → Logged 0 vs (after_all blks vs)
  after_all-Logged blks vs =
      emplace_all-Logged vs [] _ (record { counted = refl; kept = λ i x e near. cc })

  -- After a run of pushes to a queue that was all zero, each reader that asks for the index of one
  -- of the latest SIZE - 1 messages gets that message, also while the next push fills its block.
  pub readers_agree :
      (blks : Blocks T) (vs : List T) (i : ℕ) (x : T)
      → get_elem? vs i ≡ some x
      → length vs < i + size
      → (pop size (i + 1) (after_all blks vs) ≡ x)
        × ((v : T) → pop size (i + 1) (fill size (λ old. v) (after_all blks vs)) ≡ x)
  readers_agree blks vs i x e near =
      let l = after_all-Logged blks vs in
      (
        l.kept i x e (omega (arith, near)),
        λ v. (fill-Logged v vs (after_all blks vs) l).kept i x e (omega (arith, near)),
      )

  pub lapped :
      (blks : Blocks T) (vs : List T) (i : ℕ) (y : T)
      → get_elem? vs (i + size) ≡ some y
      → length vs ≤ i + size + size
      → pop size (i + 1) (after_all blks vs) ≡ y
  unfolding pop
  lapped blks vs i y e near =
      ap (λ (k : ℕ). (after_all blks vs).blks k)
        (sym (add-mod_right (i + 1) size) ∙ ap (λ (k : ℕ). k % size) (round i size))
      ∙ (after_all-Logged blks vs).kept (i + size) y e (omega (arith, near))
