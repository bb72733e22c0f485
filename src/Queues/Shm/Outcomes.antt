-- ===== src/Queues/Shm/Outcomes.antt =====
-- What `shmmap` does for each answer of the operating system.
use sample.Base.{
  ℕ, Bool, true, false, String, List, [], ◌∷◌, Option, none, some, if◌then◌else◌, ◌≡◌, refl,
}
use sample.Queues.Shm.{System, Call, shmmap, shm_open, ftruncate, mmap, close, shm_init}

-- The descriptors that a run of calls closes, and the addresses at which it makes a queue.
abbrev pub closed : List Call → List ℕ
closed [] = []
closed (shm_open name ∷ calls) = closed calls
closed (ftruncate fd size ∷ calls) = closed calls
closed (mmap fd size ∷ calls) = closed calls
closed (close fd ∷ calls) = fd ∷ closed calls
closed (shm_init address ∷ calls) = closed calls

abbrev pub made : List Call → List ℕ
made [] = []
made (shm_open name ∷ calls) = made calls
made (ftruncate fd size ∷ calls) = made calls
made (mmap fd size ∷ calls) = made calls
made (close fd ∷ calls) = made calls
made (shm_init address ∷ calls) = address ∷ made calls

abbrev pub listed : Option ℕ → List ℕ
listed none = []
listed (some n) = n ∷ []

-- The address of the mapping, if every answer is good.
abbrev pub mapping : System → Option ℕ
mapping s = elim s.opened [ none ↦ none | some fd ↦ if s.sized then s.mapped else none ]

abbrev Right : (size : ℕ) → String → System → Type 0
Right size filename s =
    ((shmmap size filename s).0 ≡ mapping s)
    × (closed (shmmap size filename s).1 ≡ listed s.opened)
    × (made (shmmap size filename s).1 ≡ listed (mapping s))

by_answers :
    (size : ℕ) (filename : String) (o : Option ℕ) (b : Bool) (m : Option ℕ)
    → Right size filename (record { opened = o; sized = b; mapped = m })
unfolding shmmap
by_answers size filename none b m = (refl, refl, refl)
by_answers size filename (some fd) false m = (refl, refl, refl)
by_answers size filename (some fd) true none = (refl, refl, refl)
by_answers size filename (some fd) true (some address) = (refl, refl, refl)

-- `shmmap` returns the address of the mapping if every call of the operating system succeeds and a
-- null pointer otherwise; it closes the descriptor once on every path on which it was opened, and
-- calls `shmInit` exactly on the address that it returns.
pub shmmap-mapping :
    (size : ℕ) (filename : String) (s : System)
    → ((shmmap size filename s).0 ≡ mapping s)
      × (closed (shmmap size filename s).1 ≡ listed s.opened)
      × (made (shmmap size filename s).1 ≡ listed (mapping s))
shmmap-mapping size filename s = by_answers size filename s.opened s.sized s.mapped
