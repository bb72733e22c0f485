-- ===== src/Lib.antt =====
-- A client of the Phemex exchange: market data and trading over a websocket and an HTTP session.
--
-- The program is a set of C++ headers. exchange_core/include/exchange-core declares the records that
-- the services exchange. exchange_phemex/include/exchange-phemex holds two sessions over boost::asio,
-- WSConnection.hpp and HttpConnection.hpp, and two services that own sessions and listen to them,
-- MarketDataService.hpp and TradeService.hpp. A caller runs RunOnce in a loop: it polls one handler of
-- a session, which may call back into its service, and then looks after reconnections and heartbeats.
--
-- Files:
--   Base, Base/*      shared tests, lists, texts and options; 64-bit and 32-bit integers; maps with
--                     text keys (std::unordered_map); decimal texts
--   External          rapidjson, floating-point numbers, rapidjson's writer and HMAC, as parameters
--   Core, Core/*      the enumerations (message.h) and the records (exchange-core.h); Core/Messages, the
--                     message structures and their headers (message.h); Core/Instruments,
--                     SecurityMaster (exchange-core.h); Core/Printing, to_string of the records
--   Levels, Levels/*  one side of a book, std::map<int, int>, and its laws
--   Asio              error codes, and the states that both sessions have
--   Ws                the handlers of session (WSConnection.hpp)
--   Http              the handlers of HttpSession (HttpConnection.hpp)
--   Ws/Runtime, Http/Runtime   the sessions under boost::asio: outstanding operations, which complete
--                     one at a time, in any order, with any result; runs as an inductive relation;
--                     Calls and Speech: which calls a handler makes of a listener, and what a program
--                     that only sends does to a run
--   Wire, Wire/*      what both sessions implement: a queue whose head alone is on its way
--   Market            the state of MarketDataService; Market/Book and Market/Feed are onMessage,
--                     Market/Link the rest; Market/Program is the service at work: Connect once, then
--                     calls of RunOnce, in each of which one operation of the session completes, and
--                     the calls that the session's handler makes of the service; Market/Program/Protocol
--                     is what it may write; the other children hold the lemmas and theorems
--   Trade             the state of TradeService; Trade/Words, Hex, Orders, Link, Reports and Rest are its
--                     operations; Trade/Program is the service at work, with both sessions and those
--                     that it has replaced, and orders between the calls of RunOnce. Trade/Server is
--                     what the exchange reads in a request, written without the program's operations;
--                     the other children hold the lemmas and theorems
--   Exchange          the class that holds the configuration and both services (exchange-phemex.h)
--   Queues, Queues/*  the queues in shared memory (WFSPSC.h, WFSPMC.h) and their mapping (shm.h);
--                     Spsc/Steps is a producer and a consumer whose steps come in any order
--   Samples, Examples concrete libraries, and the theorems on concrete inputs
--
-- A handler is a function from a state to the new state and the list of what it did outside, in order;
-- `none` stands for a failed assertion or undefined behaviour of the program. Names follow the
-- program's, in snake case; a handler whose name is that of a listener's call has another name where
-- the two meet (on_connected, on_closed). Loops over an array of a message are recursion on the number
-- of elements left, which the program takes from Size(); no fuel is needed. Prices and quantities of
-- a book are narrowed from int64_t to int as the program does. Floating-point numbers are abstract: only
-- which operations are applied to which numbers is stated. Clock readings are arguments.
--
-- The messages and queues are those of x86-64, where `long` has eight bytes. The indices of a queue stay
-- below 2^63, which a push takes 292 years to reach at one per nanosecond, so they do not wrap around.
-- A queue copies its messages as plain bytes. Its two sides see each other's accesses of the memory in
-- one order. x86-64 does so for the code as it is written; C++ does not say so, because `size` loads the
-- indices with memory_order_relaxed.
--
-- An io_context that runs out of work is stopped, and RunOnce never restarts it. Trade/Program has this:
-- the operations of all sessions, and a number that each call chooses for what boost has in work
-- besides them, such as a timer that was cancelled. Market/Program leaves it out, so its steps let a
-- stopped context run handlers too; what holds after all of its steps holds after those that remain.
--
-- Not modelled: logging; memory and object lifetimes, but that a session that was replaced lives while
-- it has an operation outstanding; WFMPMC.h, a copy of a third-party library that
-- nothing calls; sha256, which nothing calls, and curl_cb, whose text is only logged; the test programs.
pub mod Base
pub mod Samples
pub mod Examples
pub mod External
pub mod Levels
pub mod Core
pub mod Market
pub mod Trade
pub mod Queues
pub mod Exchange
pub mod Wire
pub mod Asio
pub mod Ws
pub mod Http
