-- ===== src/Timer/Single.antt =====
-- A register of src/backend/compare_match_timer.rs that is one 16-bit counter: what is written to it is
-- what a read puts into the low half of its word.
use mathlib.Core.Logic.{∥∥₁_elim}
use mathlib.Core.Path.{subst}
use mathlib.Core.List.{Permᴰ}
use mathlib.Core.List.Perm
use native.Mathlib.Nat.{ℕ_set}
use fuguex_peripheral.Base.{
  ℕ, ◌+◌, ◌*◌, ◌/◌, ◌%◌, ◌^◌, ◌<◌, ◌≡◌, refl, arith, List, [], ◌∷◌, Perm, ok, panic, some, lookup,
  length, lt→ltb, ge→ltb, ◌≤◌, Option-cases, inl, inr,
}
use fuguex_peripheral.Machine.{Machine, ByteOrder, MemoryLaws, ByteOrderLaws}
use fuguex_peripheral.Timer.{
  CompareMatchTimer, Functions, FunName, get_current_tick, get_compare_against, set_current_tick,
}
use fuguex_peripheral.Timer.Mask.Halves.{set_bits_val_low_half, bit_and_low_half}
use fuguex_peripheral.Timer.Registers.{
  read_functions, handle_reg_read, write_function, write_functions, handle_reg_write,
}

-- What is left of the word `old`, with `v` in its low half.
abbrev pub low_half_set : ℕ → ℕ → ℕ
low_half_set old v = old / 2 ^ 16 * 2 ^ 16 + v % 2 ^ 16

pub read_counter :
    (t : CompareMatchTimer) (word : ℕ)
    → t.current_tick < 2 ^ 32
    → word < 2 ^ 32
    → read_functions t ((0xffff, get_current_tick) ∷ []) word
      ≡ ok (low_half_set word t.current_tick)
unfolding read_functions
read_counter t word small h =
    rw (lt→ltb _ _ small) (rw (set_bits_val_low_half word t.current_tick h))

pub read_compare :
    (t : CompareMatchTimer) (word : ℕ)
    → t.compare_against < 2 ^ 32
    → word < 2 ^ 32
    → read_functions t ((0xffff, get_compare_against) ∷ []) word
      ≡ ok (low_half_set word t.compare_against)
unfolding read_functions
read_compare t word small h =
    rw (lt→ltb _ _ small) (rw (set_bits_val_low_half word t.compare_against h))

read_counter_large :
    (t : CompareMatchTimer) (word : ℕ)
    → 2 ^ 32 ≤ t.current_tick
    → read_functions t ((0xffff, get_current_tick) ∷ []) word ≡ panic
unfolding read_functions
read_counter_large t word large = rw (ge→ltb _ _ large)

write_set_current_tick :
    (t : CompareMatchTimer) (v : ℕ)
    → v < 2 ^ 16
    → write_function v 0xffff set_current_tick t ≡ ok (record t { current_tick = v })
unfolding write_function
write_set_current_tick t v h = rw (bit_and_low_half v) (ground arith)

Functions-set : IsSet Functions
Functions-set = hlevel ℕ_set

two_entries : {x : ℕ × FunName} (a b : ℕ × FunName) (l : Functions) → a ∷ b ∷ l ≡ x ∷ [] → ⊥
two_entries a b l e = cc

-- A list of one entry has no other order.
pub only_perm : {x : ℕ × FunName} {fs gs : Functions} → Permᴰ fs gs → fs ≡ x ∷ [] → gs ≡ x ∷ []
only_perm Permᴰ.nil one = cc
only_perm {x} (Permᴰ.cons {a = a} {b = b} {l₁ = l} {l₂ = l'} e p) one =
    let empty : l ≡ [] = cc in
    let empty' : [] ≡ l' = Perm.nil-eq (subst (λ k. Perm k l') empty ∣ p ∣₁) in
    let same : a ≡ x = cc in cc
only_perm (Permᴰ.swap {a = a} {b = b} {l = l} e d) one = absurd (two_entries a b l one)
only_perm (Permᴰ.trans p q) one = only_perm q (only_perm p one)

module _ (iter : Functions → Functions) (order : (fs : Functions) → Perm fs (iter fs)) where
  pub only_one : (x : ℕ × FunName) → iter (x ∷ []) ≡ x ∷ []
  only_one x = ∥∥₁_elim (order (x ∷ [])) (Functions-set _ _) (λ p. only_perm p refl)

  pub handle_reg_write_counter :
      (t : CompareMatchTimer) (addr v : ℕ)
      → lookup addr t.reg_write_map ≡ some ((0xffff, set_current_tick) ∷ [])
      → v < 2 ^ 16
      → handle_reg_write iter t addr v ≡ ok (record t { current_tick = v })
  unfolding handle_reg_write write_functions
  handle_reg_write_counter t addr v found h =
      rw found (rw (only_one (0xffff, set_current_tick)) (rw (write_set_current_tick t v h)))

  module _ (m : Machine) (e : ByteOrder) (laws : MemoryLaws m) (bytes : ByteOrderLaws e) where
    -- A register that is one 16-bit number.
    pub handle_reg_read_number :
        (t : CompareMatchTimer) (s : m.State) (addr word number : ℕ) (fun : FunName) {old : List ℕ}
        → lookup addr t.reg_read_map ≡ some ((0xffff, fun) ∷ [])
        → read_functions t ((0xffff, fun) ∷ []) word ≡ ok (low_half_set word number)
        → m.view_values s addr 4 ≡ some old
        → e.read_u32 old ≡ some word
        → (s' : m.State) × (handle_reg_read iter m e t s addr ≡ ok (low_half_set word number, s'))
          × (m.set_values s addr (e.write_u32 (low_half_set word number)) ≡ some s')
    unfolding handle_reg_read
    handle_reg_read_number t s addr word number fun {old = old} found shows seen read =
        let stored = low_half_set word number in
        let mapped : m.view_values s addr (length (e.write_u32 stored)) ≡ some old =
          rw (bytes.length_write_u32 stored) seen in
        let (s', done) = laws.set_mapped s addr (e.write_u32 stored) mapped in
        (s', rw found (rw seen (rw read (rw (only_one (0xffff, fun)) (rw shows (rw done))))), done)

    pub handle_reg_read_counter :
        (t : CompareMatchTimer) (s : m.State) (addr word : ℕ) {old : List ℕ}
        → lookup addr t.reg_read_map ≡ some ((0xffff, get_current_tick) ∷ [])
        → t.current_tick < 2 ^ 32
        → m.view_values s addr 4 ≡ some old
        → e.read_u32 old ≡ some word
        → word < 2 ^ 32
        → (s' : m.State) × (handle_reg_read iter m e t s addr
            ≡ ok (low_half_set word t.current_tick, s'))
          × (m.set_values s addr (e.write_u32 (low_half_set word t.current_tick)) ≡ some s')
    handle_reg_read_counter t s addr word found small seen read h =
        handle_reg_read_number t s addr word t.current_tick get_current_tick found
          (read_counter t word small h) seen read

  pub handle_reg_read_large :
      (m : Machine) (e : ByteOrder) (t : CompareMatchTimer) (s : m.State) (addr : ℕ)
      → lookup addr t.reg_read_map ≡ some ((0xffff, get_current_tick) ∷ [])
      → 2 ^ 32 ≤ t.current_tick
      → handle_reg_read iter m e t s addr ≡ panic
  unfolding handle_reg_read
  handle_reg_read_large m e t s addr found large = elim (Option-cases (m.view_values s addr 4)) [
    | inl unmapped ↦ rw found (rw unmapped)
    | inr (bs, seen) ↦ elim (Option-cases (e.read_u32 bs)) [
      | inl short ↦ rw found (rw seen (rw short))
      | inr (word, read) ↦ rw found (
          rw seen (
            rw read
              (rw (only_one (0xffff, get_current_tick)) (rw (read_counter_large t word large)))))
    ]
  ]
