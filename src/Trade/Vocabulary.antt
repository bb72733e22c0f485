-- ===== src/Trade/Vocabulary.antt =====
-- Which words of the exchange `TradeService` takes for which states.
use sample.Base.{String, ◌≡◌, refl, ◌↔◌, ◌⊎◌, inl, inr, Bool-cases, arith, str_eq, str_eq_iff}
use sample.Core.Enums.{Side, buy, sell, OrderStatus, ExecType}
use sample.Trade.Words.{to_side, to_order_status, to_exec_type}
use sample.Trade.Orders.{side_word}

pub to_side-side_word : (s : Side) → to_side (side_word s) ≡ s
unfolding to_side side_word
to_side-side_word buy = refl
to_side-side_word sell = refl

pub to_order_status_cancelled :
    (word : String)
    → (to_order_status word ≡ OrderStatus.cancelled) ↔ ((word ≡ "Canceled") ⊎ (word ≡ "EXPIRED"))
unfolding to_order_status
to_order_status_cancelled word = (
  λ h. elim (Bool-cases (str_eq word "Canceled")) [
    | inl e ↦ inl ((str_eq_iff word "Canceled").0 e)
    | inr a ↦ elim (Bool-cases (str_eq word "EXPIRED")) [
      | inl e ↦ inr ((str_eq_iff word "EXPIRED").0 e)
      | inr b ↦ absurd (ground arith)
    ]
  ],
  λ e. elim e [ inl c ↦ rw c refl | inr c ↦ rw c refl ],
)

pub to_exec_type_cancelled :
    (word : String)
    → (to_exec_type word ≡ ExecType.cancelled) ↔ ((word ≡ "Canceled") ⊎ (word ≡ "Expired"))
unfolding to_exec_type
to_exec_type_cancelled word = (
  λ h. elim (Bool-cases (str_eq word "Canceled")) [
    | inl e ↦ inl ((str_eq_iff word "Canceled").0 e)
    | inr a ↦ elim (Bool-cases (str_eq word "Expired")) [
      | inl e ↦ inr ((str_eq_iff word "Expired").0 e)
      | inr b ↦ absurd (ground arith)
    ]
  ],
  λ e. elim e [ inl c ↦ rw c refl | inr c ↦ rw c refl ],
)

-- The words that the trade service takes for a cancelled order are exactly "Canceled" and
-- "EXPIRED" as the status of an order, but exactly "Canceled" and "Expired" as the type of an
-- execution.
pub cancelled_words :
    (word : String)
    → ((to_order_status word ≡ OrderStatus.cancelled) ↔ ((word ≡ "Canceled") ⊎ (word ≡ "EXPIRED")))
      × ((to_exec_type word ≡ ExecType.cancelled) ↔ ((word ≡ "Canceled") ⊎ (word ≡ "Expired")))
cancelled_words word = (to_order_status_cancelled word, to_exec_type_cancelled word)
