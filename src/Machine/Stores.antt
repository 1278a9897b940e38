-- ===== src/Machine/Stores.antt =====
-- Stores to memory that is mapped, and what is read there after them.
use fuguex_peripheral.Base.{ℕ, ◌≡◌, List, some, length}
use fuguex_peripheral.Machine.{Machine, MemoryLaws}

module _ (m : Machine) (laws : MemoryLaws m) where
  -- A write to mapped memory.
  pub store :
      (s : m.State) (a : ℕ) (bs : List ℕ) (n : ℕ) {old : List ℕ}
      → length bs ≡ n
      → m.view_values s a n ≡ some old
      → (t : m.State) × (m.set_values s a bs ≡ some t) × (m.view_values t a n ≡ some bs)
  store s a bs n {old = old} long seen =
      let mapped : m.view_values s a (length bs) ≡ some old = rw long seen in
      let (t, done) = laws.set_mapped s a bs mapped in
      (t, done, rw long at (laws.view_set s a bs done))
