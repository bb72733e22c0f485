-- ===== src/Core/Messages/Sizes.antt =====
-- What the header of a new message says, against the message itself.
use sample.Base.{
  ℕ, ◌≤◌, ◌≡◌, ◌≢◌, ◌↔◌, refl, arith, Option, none, some, List, [], ◌∷◌, ◌==◌, if◌then◌else◌,
}
use sample.Core.Messages.{
  Struct, trade_message, bbo_message, login_message, log_off_message, new_order_message,
  cancel_order_message, cancel_all_order_message, get_open_order_message, login_accept_message,
  execution_report_message, balance_report_message, echo_message, json_message, struct_size,
  construct, message_size,
}

abbrev structs : List Struct
structs =
    trade_message ∷ bbo_message ∷ login_message ∷ log_off_message ∷ new_order_message
    ∷ cancel_order_message ∷ cancel_all_order_message ∷ get_open_order_message
    ∷ login_accept_message ∷ execution_report_message ∷ balance_report_message ∷ echo_message
    ∷ json_message ∷ []

-- The first of some structures whose constructor gives a type.
abbrev pub struct_in : ℕ → List Struct → Option Struct
struct_in type [] = none
struct_in type (s ∷ more) = if (construct s).type == type then some s else struct_in type more

-- The structure that a type in a header stands for.
abbrev pub struct_of : ℕ → Option Struct
struct_of type = struct_in type structs

-- The size in the header is that of the message.
abbrev pub IsExact : Struct → Type 0
IsExact s = struct_size s ≡ (construct s).size

exact :
    {s : Struct} → IsExact s → s ≢ balance_report_message → IsExact s ↔ (s ≢ balance_report_message)
exact e d = (λ _. d, λ _. e)

headers_exact : (s : Struct) → IsExact s ↔ (s ≢ balance_report_message)
unfolding construct struct_size
headers_exact balance_report_message = (λ e. absurd (omega arith), λ d. absurd (d refl))
headers_exact _ = exact refl (λ d. cc)

-- For every message structure, the type in the header of a new message stands for that structure
-- alone among the structures, both the structure and the size in its header fit in `Message`, the
-- size in the header is at least that of the structure, and it is that size for all structures but
-- BalanceReportMessage.
pub headers :
    (s : Struct)
    → (struct_of (construct s).type ≡ some s)
      × (struct_size s ≤ message_size)
      × (struct_size s ≤ (construct s).size)
      × ((construct s).size ≤ message_size)
      × (IsExact s ↔ (s ≢ balance_report_message))
unfolding construct message_size struct_size
headers trade_message = (refl, omega arith, omega arith, omega arith, headers_exact trade_message)
headers bbo_message = (refl, omega arith, omega arith, omega arith, headers_exact bbo_message)
headers login_message = (refl, omega arith, omega arith, omega arith, headers_exact login_message)
headers log_off_message =
    (refl, omega arith, omega arith, omega arith, headers_exact log_off_message)
headers new_order_message =
    (refl, omega arith, omega arith, omega arith, headers_exact new_order_message)
headers cancel_order_message =
    (refl, omega arith, omega arith, omega arith, headers_exact cancel_order_message)
headers cancel_all_order_message =
    (refl, omega arith, omega arith, omega arith, headers_exact cancel_all_order_message)
headers get_open_order_message =
    (refl, omega arith, omega arith, omega arith, headers_exact get_open_order_message)
headers login_accept_message =
    (refl, omega arith, omega arith, omega arith, headers_exact login_accept_message)
headers execution_report_message =
    (refl, omega arith, omega arith, omega arith, headers_exact execution_report_message)
headers balance_report_message =
    (refl, omega arith, omega arith, omega arith, headers_exact balance_report_message)
headers echo_message = (refl, omega arith, omega arith, omega arith, headers_exact echo_message)
headers json_message = (refl, omega arith, omega arith, omega arith, headers_exact json_message)
