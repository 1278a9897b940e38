-- ===== src/Machine.antt =====
-- What the peripherals use of the emulator: `metaemu`'s `PCodeState<u8, O>`, `fugue::ir`'s `Address`
-- and `fugue::bytes`' `Order`. None of it is in the repository, so the operations are parameters and
-- the behaviour that the crate relies on is stated as laws, beside them.
pub mod Stores
use Prim.Native.String.{String}
use fuguex_peripheral.Base.{
  ℕ, ◌+◌, ◌-◌, ◌^◌, ◌/◌, ◌≤◌, ◌<◌, ◌≡◌, ◌⊎◌, Option, none, some, List, length, take, AllBytes,
}

-- An address is its offset. `none` is the `Err` of an operation, at whose `unwrap` the crate panics.
pub record Machine : Type 1 where
  pub State : Type 0
  -- `view_values(address, size)` and `set_values(address, bytes)`.
  pub view_values : State → ℕ → ℕ → Option (List ℕ)
  pub set_values : State → ℕ → List ℕ → Option State
  -- `view_values_mut(address, size)` where the whole slice is then overwritten by `size` bytes.
  pub fill_values : State → ℕ → List ℕ → Option State
  pub stack_pointer_value : State → Option ℕ
  pub set_stack_pointer_value : State → ℕ → Option State
  -- `registers().register_by_name(name)` and `get_operand`.
  pub Register : Type 0
  pub register_by_name : State → String → Option Register
  pub get_operand : State → Register → Option ℕ
  -- `u32::try_from(&address)`, `address - address` and `address + address`.
  pub address_to_u32 : ℕ → Option ℕ
  pub address_sub : ℕ → ℕ → ℕ
  pub address_add : ℕ → ℕ → ℕ

-- Memory reads back what was written, and a write leaves what lies elsewhere.
pub record MemoryLaws (m : Machine) : Type 0 where
  pub length_view :
      (s : m.State) (a n : ℕ) {bs : List ℕ} → m.view_values s a n ≡ some bs → length bs ≡ n
  pub set_mapped :
      (s : m.State) (a : ℕ) (cs : List ℕ) {bs : List ℕ}
      → m.view_values s a (length cs) ≡ some bs
      → (t : m.State) × (m.set_values s a cs ≡ some t)
  pub view_set :
      (s : m.State) (a : ℕ) (cs : List ℕ) {t : m.State}
      → m.set_values s a cs ≡ some t
      → m.view_values t a (length cs) ≡ some cs
  pub view_set_elsewhere :
      (s : m.State) (a b n : ℕ) (cs : List ℕ) {t : m.State}
      → m.set_values s a cs ≡ some t
      → (b + n ≤ a) ⊎ (a + length cs ≤ b)
      → m.view_values t b n ≡ m.view_values s b n

-- Filling a mutable view writes like `set_values`, and the stack pointer is apart from memory.
pub record StackLaws (m : Machine) : Type 0 where
  pub fill_as_set : (s : m.State) (a : ℕ) (cs : List ℕ) → m.fill_values s a cs ≡ m.set_values s a cs
  pub set_stack_pointer_defined :
      (s : m.State) (a : ℕ) {old : ℕ}
      → m.stack_pointer_value s ≡ some old
      → (t : m.State) × (m.set_stack_pointer_value s a ≡ some t)
  pub stack_pointer_set :
      (s : m.State) (a : ℕ) (cs : List ℕ) {t : m.State}
      → m.set_values s a cs ≡ some t
      → m.stack_pointer_value t ≡ m.stack_pointer_value s
  pub set_stack_pointer :
      (s : m.State) (a : ℕ) {t : m.State}
      → m.set_stack_pointer_value s a ≡ some t
      → m.stack_pointer_value t ≡ some a
  pub view_set_stack_pointer :
      (s : m.State) (a b n : ℕ) {t : m.State}
      → m.set_stack_pointer_value s a ≡ some t
      → m.view_values t b n ≡ m.view_values s b n

-- Addresses below 2 ^ 32 convert to `u32`, and their arithmetic is exact where it does not wrap.
pub record AddressLaws (m : Machine) : Type 0 where
  pub to_u32_small : (a : ℕ) → a < 2 ^ 32 → m.address_to_u32 a ≡ some a
  pub sub_exact : (a b : ℕ) → b ≤ a → m.address_sub a b ≡ a - b
  pub add_exact : (a b : ℕ) → a + b < 2 ^ 32 → m.address_add a b ≡ a + b

-- The `Order` by which words stand in memory. `none` is the panic on a slice that is too short.
pub record ByteOrder : Type 0 where
  pub read_u32 : List ℕ → Option ℕ
  pub write_u32 : ℕ → List ℕ
  pub read_u64 : List ℕ → Option ℕ
  pub write_u64 : ℕ → List ℕ

pub record ByteOrderLaws (e : ByteOrder) : Type 0 where
  pub read_write_u32 : (v : ℕ) → v < 2 ^ 32 → e.read_u32 (e.write_u32 v) ≡ some v
  pub length_write_u32 : (v : ℕ) → length (e.write_u32 v) ≡ 4
  pub length_write_u64 : (v : ℕ) → length (e.write_u64 v) ≡ 8
  pub read_u32_defined :
      (bs : List ℕ) → 4 ≤ length bs → (v : ℕ) × (e.read_u32 bs ≡ some v) × (v < 2 ^ 32)
  pub read_u64_short : (bs : List ℕ) → length bs < 8 → e.read_u64 bs ≡ none

-- A shorter view of memory is the beginning of a longer one.
pub record PrefixLaws (m : Machine) : Type 0 where
  pub view_prefix :
      (s : m.State) (a k n : ℕ) {bs : List ℕ}
      → k ≤ n
      → m.view_values s a n ≡ some bs
      → m.view_values s a k ≡ some (take k bs)

-- Big-endian words: reading is the inverse of writing on four bytes, and the upper half comes first.
pub record BigEndianLaws (e : ByteOrder) : Type 0 where
  pub write_read_u32 :
      (bs : List ℕ) {v : ℕ}
      → length bs ≡ 4
      → AllBytes bs
      → e.read_u32 bs ≡ some v
      → e.write_u32 v ≡ bs
  pub upper_first :
      (v w : ℕ) → v / 2 ^ 16 ≡ w / 2 ^ 16 → take 2 (e.write_u32 v) ≡ take 2 (e.write_u32 w)
  pub write_bytes : (v : ℕ) → AllBytes (e.write_u32 v)
