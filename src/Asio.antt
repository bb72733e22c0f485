-- ===== src/Asio.antt =====
-- What both sessions share: the error codes of boost::asio and boost::beast, how far a session is from
-- a usable connection, and whether it is writing.
use sample.Base.{ℕ, Bool, not, ◌==◌}

-- `error_code`: its value, 0 for success.
abbrev pub ErrorCode : Type 0
ErrorCode = ℕ

-- `if (ec)`
abbrev pub failed : ErrorCode → Bool
failed ec = not (ec == 0)

-- How far a session is from a usable connection.
pub data State : Type 0 where
  handshaking connected : State

pub data Sending : Type 0 where
  send_idle sending : Sending

abbrev pub is_connected : State → Bool
is_connected handshaking = Bool.false
is_connected connected = Bool.true

abbrev pub is_sending : Sending → Bool
is_sending send_idle = Bool.false
is_sending sending = Bool.true
