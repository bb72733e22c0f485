-- ===== src/Core/Messages.antt =====
-- The messages of message.h: their types, the layout of their structures on x86-64, and the headers that
-- their constructors leave.
pub mod Sizes
use sample.Base.{
  ℕ, ◌+◌, ◌-◌, ◌*◌, ◌/◌, ◌%◌, ◌^◌, List, [], ◌∷◌, ◌++◌, Option, none, some, ltb, if◌then◌else◌,
}

-- `MessageType`
pub data MessageType : Type 0 where
  trade bbo login logoff new_order cancel_order cancel_all_order get_open_order : MessageType
  login_accept logoff_accept execution_report balance_report heartbeat echo json : MessageType

-- The values of the enumerators, which begin with `Trade = 1`.
unfoldable pub type_code : MessageType → ℕ
type_code trade = 1
type_code bbo = 2
type_code login = 3
type_code logoff = 4
type_code new_order = 5
type_code cancel_order = 6
type_code cancel_all_order = 7
type_code get_open_order = 8
type_code login_accept = 9
type_code logoff_accept = 10
type_code execution_report = 11
type_code balance_report = 12
type_code heartbeat = 13
type_code echo = 14
type_code json = 15

-- A member of a structure. An enumeration is an `int`; `chars n` is `char[n]`.
pub data Member : Type 0 where
  uint16 int32 int64 double : Member
  chars : ℕ → Member

abbrev pub member_size : Member → ℕ
member_size uint16 = 2
member_size int32 = 4
member_size int64 = 8
member_size double = 8
member_size (chars n) = n

abbrev pub member_align : Member → ℕ
member_align uint16 = 2
member_align int32 = 4
member_align int64 = 8
member_align double = 8
member_align (chars n) = 1

-- `n` rounded up to a multiple of `align`.
abbrev pub round_up : (n align : ℕ) → ℕ
round_up n align = (n + (align - 1)) / align * align

-- Where the members end that begin behind `offset`.
abbrev pub end_of : ℕ → List Member → ℕ
end_of offset [] = offset
end_of offset (m ∷ ms) = end_of (round_up offset (member_align m) + member_size m) ms

abbrev pub max_align : List Member → ℕ
max_align [] = 1
max_align (m ∷ ms) = let a = max_align ms in if ltb a (member_align m) then member_align m else a

-- `sizeof` of a structure with these members.
abbrev pub size_of : List Member → ℕ
size_of ms = round_up (end_of 0 ms) (max_align ms)

-- `MessageHeader`
abbrev pub header_members : List Member
header_members = uint16 ∷ uint16 ∷ chars 8 ∷ int64 ∷ []

-- `MAX_MESSAGE_SIZE`
abbrev pub max_message_size : ℕ
max_message_size = 1024

-- `Message`, the element of the queues.
unfoldable pub message_size : ℕ
message_size = size_of (header_members ++ chars (max_message_size - size_of header_members) ∷ [])

-- The structures that derive from `MessageHeader`. There is none for the types LOGOFF_ACCEPT and
-- HEARTBEAT.
pub data Struct : Type 0 where
  trade_message bbo_message login_message log_off_message new_order_message : Struct
  cancel_order_message cancel_all_order_message get_open_order_message : Struct
  login_accept_message execution_report_message balance_report_message : Struct
  echo_message json_message : Struct

-- The own members of the structures that hold more than a few.
abbrev new_order_members : List Member
new_order_members = int64 ∷ chars 16 ∷ int32 ∷ int32 ∷ int32 ∷ double ∷ double ∷ chars 32 ∷ []

abbrev execution_report_members : List Member
execution_report_members =
    int64
    ∷ chars 64
    ∷ chars 32
    ∷ chars 32
    ∷ chars 16
    ∷ chars 8
    ∷ chars 32
    ∷ int32
    ∷ int32
    ∷ int32
    ∷ int32
    ∷ double
    ∷ double
    ∷ int32
    ∷ double
    ∷ double
    ∷ double
    ∷ double
    ∷ double
    ∷ int64
    ∷ int64
    ∷ int64
    ∷ double
    ∷ []

abbrev balance_report_members : List Member
balance_report_members = int64 ∷ chars 8 ∷ double ∷ double ∷ double ∷ []

abbrev json_members : List Member
json_members = int64 ∷ chars (max_message_size - size_of header_members - 128) ∷ []

-- The own members of all, in order.
unfoldable pub members : Struct → List Member
members trade_message = int32 ∷ int32 ∷ double ∷ double ∷ int64 ∷ int32 ∷ []
members bbo_message = int32 ∷ int32 ∷ double ∷ double ∷ double ∷ double ∷ int64 ∷ []
members login_message = chars 16 ∷ chars 16 ∷ int64 ∷ []
members log_off_message = chars 8 ∷ int64 ∷ []
members new_order_message = new_order_members
members cancel_order_message = int64 ∷ chars 16 ∷ chars 64 ∷ chars 32 ∷ []
members cancel_all_order_message = int64 ∷ chars 16 ∷ []
members get_open_order_message = int64 ∷ chars 16 ∷ []
members login_accept_message = int64 ∷ []
members execution_report_message = execution_report_members
members balance_report_message = balance_report_members
members echo_message = int64 ∷ []
members json_message = json_members

unfoldable pub struct_size : Struct → ℕ
unfolding members
struct_size s = size_of (header_members ++ members s)

-- The members of the header that a constructor sets.
pub record Header : Type 0 where
  pub type : ℕ
  pub size : ℕ

-- `message_type` and `message_size` are `uint16_t`.
abbrev pub header : MessageType → ℕ → Header
header type size = record { type = type_code type % 2 ^ 16; size = size % 2 ^ 16 }

-- The constructors. That of BalanceReportMessage takes the size of ExecutionReportMessage.
unfoldable pub construct : Struct → Header
unfolding type_code struct_size
construct trade_message = header trade (struct_size trade_message)
construct bbo_message = header bbo (struct_size bbo_message)
construct login_message = header login (struct_size login_message)
construct log_off_message = header logoff (struct_size log_off_message)
construct new_order_message = header new_order (struct_size new_order_message)
construct cancel_order_message = header cancel_order (struct_size cancel_order_message)
construct cancel_all_order_message = header cancel_all_order (struct_size cancel_all_order_message)
construct get_open_order_message = header get_open_order (struct_size get_open_order_message)
construct login_accept_message = header login_accept (struct_size login_accept_message)
construct execution_report_message = header execution_report (struct_size execution_report_message)
construct balance_report_message = header balance_report (struct_size execution_report_message)
construct echo_message = header echo (struct_size echo_message)
construct json_message = header json (struct_size json_message)
