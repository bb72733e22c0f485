-- ===== src/Queues/Shm.antt =====
-- exchange_core/include/exchange-core/shm.h: mapping a queue in shared memory.
pub mod Outcomes
use sample.Base.{
  ℕ, Bool, true, false, not, String, List, [], ◌∷◌, Option, none, some, if◌then◌else◌,
}

-- What the operating system answers in one call: a descriptor, whether the size was set, an address.
pub record System : Type 0 where
  pub opened : Option ℕ
  pub sized : Bool
  pub mapped : Option ℕ

-- The calls of the program, in order. `size` is `sizeof(T)`. Printing to `cerr` is left out.
pub data Call : Type 0 where
  shm_open : (name : String) → Call
  ftruncate : (fd size : ℕ) → Call
  mmap : (fd size : ℕ) → Call
  close : (fd : ℕ) → Call
  shm_init : (address : ℕ) → Call

abbrev after_mmap : ℕ → Option ℕ → Option ℕ × List Call
after_mmap fd none = (none, close fd ∷ [])
after_mmap fd (some address) = (some address, close fd ∷ shm_init address ∷ [])

abbrev with_size : (size fd : ℕ) → System → Option ℕ × List Call
with_size size fd s =
    let (r, calls) = after_mmap fd s.mapped in
    if not s.sized then (none, close fd ∷ []) else (r, mmap fd size ∷ calls)

abbrev with_fd : (size : ℕ) → System → Option ℕ → Option ℕ × List Call
with_fd size s none = (none, [])
with_fd size s (some fd) = let (r, calls) = with_size size fd s in (r, ftruncate fd size ∷ calls)

-- `shmmap`: the address, or a null pointer.
unfoldable pub shmmap : (size : ℕ) → String → System → Option ℕ × List Call
shmmap size filename s = let (r, calls) = with_fd size s s.opened in (r, shm_open filename ∷ calls)
