-- ===== src/Rscan/Stores.antt =====
-- Stores of src/v850/rscan.rs that succeed.
use fuguex_peripheral.Base.{ℕ, ◌≡◌, refl, List, some, ok}
use fuguex_peripheral.Machine.{Machine, ByteOrder}
use fuguex_peripheral.Rscan.{RsCan, set}
use fuguex_peripheral.Rscan.Can.{Socketcan}

module _ (c : Socketcan) (m : Machine) (e : ByteOrder) where
  pub set-step :
      (r : RsCan c) (s t : m.State) (addr : ℕ) (bs : List ℕ)
      → m.set_values s addr bs ≡ some t
      → set c m e addr bs (r, s) ≡ ((r, t), ok tt)
  set-step r s t addr bs done = rw (done, set) refl
