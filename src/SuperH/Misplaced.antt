-- ===== src/SuperH/Misplaced.antt =====
-- What a read of a register of src/SuperH/compare_match_timer.rs leaves in the two bytes of the register.
use mathlib.Core.Logic.{∥∥₁_elim}
use mathlib.Core.Bool.{Bool-set}
use mathlib.Core.List.Perm
use fuguex_peripheral.Base.{
  ℕ, ◌^◌, ◌<◌, ◌≡◌, refl, sym, ap, ◌∙◌, arith, Bool, true, false, List, Perm, some, ok, length,
  take, AllBytes, if◌then◌else◌, in_range,
}
use fuguex_peripheral.Machine.{
  Machine, ByteOrder, MemoryLaws, AddressLaws, ByteOrderLaws, PrefixLaws, BigEndianLaws,
}
use fuguex_peripheral.Machine.Stores.{store}
use fuguex_peripheral.Timer.{CompareMatchTimer, Functions}
use fuguex_peripheral.Timer.Registers.{handle_reg_read}
use fuguex_peripheral.Timer.Upper.{read_functions-can_show}
use fuguex_peripheral.SuperH.{
  CmtPeripheral, wired_0, wired_1, is_channel_0, is_channel_1, read_channel, read_register,
  hook_memory_read,
}
use fuguex_peripheral.SuperH.Start.{IsWired}
use fuguex_peripheral.SuperH.Bindings.{
  member_shown, IsRegister, at_cmstr, at_cmcsr_0, at_cmcnt_0, at_cmcor_0, at_cmcsr_1, at_cmcnt_1,
  at_cmcor_1, IsNarrow, IsBound, IsBound-maps, wired_0-IsBound, wired_1-IsBound,
}

module _ (iter : Functions → Functions) (order : (fs : Functions) → Perm fs (iter fs)) (m : Machine)
    (e : ByteOrder) (laws : MemoryLaws m) (bytes : ByteOrderLaws e) (prefixes : PrefixLaws m)
    (order_laws : BigEndianLaws e) where
  -- The four bytes at an address, of which the first two are those of a register.
  pub record IsShown (s : m.State) (addr : ℕ) (upper : List ℕ) : Type 0 where
    pub word_bytes : List ℕ
    pub seen : m.view_values s addr 4 ≡ some word_bytes
    pub small : AllBytes word_bytes
    pub front : take 2 word_bytes ≡ upper

  read_channel-IsShown :
      (t : CompareMatchTimer) (s : m.State) (addr : ℕ) (upper : List ℕ)
      → IsBound t t.reg_read_map addr
      → IsShown s addr upper
      → (s' : m.State) × (read_channel iter m e t s addr ≡ ok s') × IsShown s' addr upper
  unfolding read_channel handle_reg_read
  read_channel-IsShown t s addr upper b shown =
      let bs = shown.word_bytes in
      let four : length bs ≡ 4 = laws.length_view s addr 4 shown.seen in
      let (w, read, fits) = bytes.read_u32_defined bs (omega (arith, four)) in
      let (r, done, k) =
        read_functions-can_show t (iter b.functions) w
          (λ x inside.
            ∥∥₁_elim ((Perm.mem_iff (order b.functions)).1 inside) (Bool-set _ _)
              (member_shown t b.functions x b.good))
          fits in
      let (s', stored, seen) =
        store m laws s addr (e.write_u32 r) 4 (bytes.length_write_u32 r) shown.seen in
      let back : e.write_u32 w ≡ bs = order_laws.write_read_u32 bs four shown.small read in
      (
        s',
        rw b.found (rw shown.seen (rw read (rw done (rw stored refl)))),
        record {
          word_bytes = e.write_u32 r;
          seen = seen;
          small = order_laws.write_bytes r;
          front = order_laws.upper_first r w k.upper ∙ ap (take 2) back ∙ shown.front;
        },
      )

  -- Either the channel is read or the state stays.
  part-IsShown :
      (here : Bool) (t : CompareMatchTimer) (s : m.State) (addr : ℕ) (upper : List ℕ)
      → (here ≡ true → IsBound t t.reg_read_map addr)
      → IsShown s addr upper
      → (s' : m.State) × ((if here then read_channel iter m e t s addr else ok s) ≡ ok s')
        × IsShown s' addr upper
  part-IsShown true t s addr upper b shown = read_channel-IsShown t s addr upper (b refl) shown
  part-IsShown false t s addr upper b shown = (s, refl, shown)

  read_register-IsShown :
      (p : CmtPeripheral) (s : m.State) (addr : ℕ) (upper : List ℕ)
      → IsWired p
      → IsNarrow p.cmt_0
      → IsNarrow p.cmt_1
      → IsRegister addr
      → IsShown s addr upper
      → (s' : m.State) × (read_register iter m e p s addr ≡ ok s') × IsShown s' addr upper
  unfolding read_register
  read_register-IsShown p s addr upper wire n0 n1 register shown =
      let (s₁, first, shown₁) =
        part-IsShown (is_channel_0 addr) p.cmt_0 s addr upper
          (λ h.
            IsBound-maps p.cmt_0 wired_0 addr wire.maps_0.0
              (wired_0-IsBound p.cmt_0 addr n0 register h))
          shown in
      let (s₂, second, shown₂) =
        part-IsShown (is_channel_1 addr) p.cmt_1 s₁ addr upper
          (λ h.
            IsBound-maps p.cmt_1 wired_1 addr wire.maps_1.0
              (wired_1-IsBound p.cmt_1 addr n1 register h))
          shown₁ in
      (s₂, rw first second, shown₂)

  pub register_inside :
      (addr : ℕ)
      → IsRegister addr
      → (addr < 2 ^ 32) × (in_range (0xfffec000, 0xfffec00c) addr ≡ true)
  register_inside _ at_cmstr = (omega arith, refl)
  register_inside _ at_cmcsr_0 = (omega arith, refl)
  register_inside _ at_cmcnt_0 = (omega arith, refl)
  register_inside _ at_cmcor_0 = (omega arith, refl)
  register_inside _ at_cmcsr_1 = (omega arith, refl)
  register_inside _ at_cmcnt_1 = (omega arith, refl)
  register_inside _ at_cmcor_1 = (omega arith, refl)

  -- Every read of a register of this big-endian machine succeeds, where the timers' numbers fit 32 bits,
  -- and leaves the two bytes of the register itself as they were.
  pub read_misses_register :
      (p : CmtPeripheral) (s : m.State) (addr : ℕ) {bs : List ℕ}
      → AddressLaws m
      → IsWired p
      → IsNarrow p.cmt_0
      → IsNarrow p.cmt_1
      → IsRegister addr
      → m.view_values s addr 4 ≡ some bs
      → AllBytes bs
      → (s' : m.State) × (hook_memory_read iter m e p s addr ≡ ok s')
        × (m.view_values s' addr 2 ≡ m.view_values s addr 2)
  unfolding hook_memory_read
  read_misses_register p s addr {bs = bs} addresses wire n0 n1 register seen all =
      let (small, inside) = register_inside addr register in
      let inside' : in_range p.address_range addr ≡ true =
        ap (λ r. in_range r addr) wire.range ∙ inside in
      let before : IsShown s addr (take 2 bs) = record {
        word_bytes = bs;
        seen = seen;
        small = all;
        front = refl;
      } in
      let (s', done, after) =
        read_register-IsShown p s addr (take 2 bs) wire n0 n1 register before in
      (
        s',
        rw (addresses.to_u32_small addr small) (rw inside' done),
        prefixes.view_prefix s' addr 2 4 (omega arith) after.seen
            ∙ ap some after.front
            ∙ sym (prefixes.view_prefix s addr 2 4 (omega arith) seen),
      )
