-- ===== src/SuperH/Displaced.antt =====
-- Where a read of a counter or of a compare value of src/SuperH/compare_match_timer.rs puts the number.
use fuguex_peripheral.Base.{
  ℕ, ◌+◌, ◌*◌, ◌/◌, ◌%◌, ◌^◌, ◌<◌, ◌≡◌, refl, sym, true, in_range, ap, ◌∙◌, List, Perm, [], ◌∷◌,
  some, ok, lookup, AllBytes,
}
use fuguex_peripheral.Machine.{
  Machine, ByteOrder, MemoryLaws, AddressLaws, ByteOrderLaws, PrefixLaws, BigEndianLaws,
}
use fuguex_peripheral.Timer.{
  CompareMatchTimer, Functions, FunName, get_current_tick, get_compare_against,
}
use fuguex_peripheral.Timer.Registers.{read_functions}
use fuguex_peripheral.Timer.Single.{
  low_half_set, read_counter, read_compare, handle_reg_read_number,
}
use fuguex_peripheral.SuperH.{
  CmtPeripheral, wired_0, wired_1, read_channel, read_register, hook_memory_read,
}
use fuguex_peripheral.SuperH.Start.{IsWired}
use fuguex_peripheral.SuperH.Bindings.{
  IsRegister, at_cmcnt_0, at_cmcor_0, at_cmcnt_1, at_cmcor_1, IsNarrow,
}
use fuguex_peripheral.SuperH.Misplaced.{register_inside, read_misses_register}

-- The registers that are a number: CMCNT and CMCOR of both channels, with the number.
pub data IsNumber (p : CmtPeripheral) : ℕ → ℕ → Type 0 where
  count_0 : IsNumber p 0xfffec004 p.cmt_0.current_tick
  compare_0 : IsNumber p 0xfffec006 p.cmt_0.compare_against
  count_1 : IsNumber p 0xfffec00a p.cmt_1.current_tick
  compare_1 : IsNumber p 0xfffec00c p.cmt_1.compare_against

IsNumber-IsRegister :
    (p : CmtPeripheral) (addr number : ℕ) → IsNumber p addr number → IsRegister addr
IsNumber-IsRegister p _ _ count_0 = at_cmcnt_0
IsNumber-IsRegister p _ _ compare_0 = at_cmcor_0
IsNumber-IsRegister p _ _ count_1 = at_cmcnt_1
IsNumber-IsRegister p _ _ compare_1 = at_cmcor_1

count_0_map : lookup 0xfffec004 wired_0.reg_read_map ≡ some ((0xffff, get_current_tick) ∷ [])
unfolding wired_0
count_0_map = refl

compare_0_map : lookup 0xfffec006 wired_0.reg_read_map ≡ some ((0xffff, get_compare_against) ∷ [])
unfolding wired_0
compare_0_map = refl

count_1_map : lookup 0xfffec00a wired_1.reg_read_map ≡ some ((0xffff, get_current_tick) ∷ [])
unfolding wired_1
count_1_map = refl

compare_1_map : lookup 0xfffec00c wired_1.reg_read_map ≡ some ((0xffff, get_compare_against) ∷ [])
unfolding wired_1
compare_1_map = refl

module _ (iter : Functions → Functions) (order : (fs : Functions) → Perm fs (iter fs)) (m : Machine)
    (e : ByteOrder) (laws : MemoryLaws m) (bytes : ByteOrderLaws e) where
  read_channel-number :
      (t : CompareMatchTimer) (s : m.State) (addr word number : ℕ) (fun : FunName) {bs : List ℕ}
      → lookup addr t.reg_read_map ≡ some ((0xffff, fun) ∷ [])
      → read_functions t ((0xffff, fun) ∷ []) word ≡ ok (low_half_set word number)
      → m.view_values s addr 4 ≡ some bs
      → e.read_u32 bs ≡ some word
      → (s' : m.State) × (read_channel iter m e t s addr ≡ ok s')
        × (m.set_values s addr (e.write_u32 (low_half_set word number)) ≡ some s')
  unfolding read_channel
  read_channel-number t s addr word number fun found shows seen read =
      let (s', done, stored) =
        handle_reg_read_number iter order m e laws bytes t s addr word number fun found shows seen
          read in
      (s', rw done refl, stored)

  read_register-number :
      (p : CmtPeripheral) (s : m.State) (addr word number : ℕ) {bs : List ℕ}
      → IsWired p
      → IsNarrow p.cmt_0
      → IsNarrow p.cmt_1
      → IsNumber p addr number
      → m.view_values s addr 4 ≡ some bs
      → e.read_u32 bs ≡ some word
      → word < 2 ^ 32
      → (s' : m.State) × (read_register iter m e p s addr ≡ ok s')
        × (m.set_values s addr (e.write_u32 (low_half_set word number)) ≡ some s')
  unfolding read_register
  read_register-number p s _ word _ wire n0 n1 count_0 seen read fits =
      let (s', done, stored) =
        read_channel-number p.cmt_0 s 0xfffec004 word _ get_current_tick
          (ap (lookup 0xfffec004) wire.maps_0.0 ∙ count_0_map)
          (read_counter p.cmt_0 word n0.tick_fits fits) seen read in
      (s', rw done refl, stored)
  read_register-number p s _ word _ wire n0 n1 compare_0 seen read fits =
      let (s', done, stored) =
        read_channel-number p.cmt_0 s 0xfffec006 word _ get_compare_against
          (ap (lookup 0xfffec006) wire.maps_0.0 ∙ compare_0_map)
          (read_compare p.cmt_0 word n0.compare_fits fits) seen read in
      (s', rw done refl, stored)
  read_register-number p s _ word _ wire n0 n1 count_1 seen read fits =
      let (s', done, stored) =
        read_channel-number p.cmt_1 s 0xfffec00a word _ get_current_tick
          (ap (lookup 0xfffec00a) wire.maps_1.0 ∙ count_1_map)
          (read_counter p.cmt_1 word n1.tick_fits fits) seen read in
      (s', rw done refl, stored)
  read_register-number p s _ word _ wire n0 n1 compare_1 seen read fits =
      let (s', done, stored) =
        read_channel-number p.cmt_1 s 0xfffec00c word _ get_compare_against
          (ap (lookup 0xfffec00c) wire.maps_1.0 ∙ compare_1_map)
          (read_compare p.cmt_1 word n1.compare_fits fits) seen read in
      (s', rw done refl, stored)

  -- A read of CMCNT or of CMCOR of a channel of this big-endian machine, where the timers' numbers fit 32
  -- bits, puts the register's number into the lower half of the word of four bytes that begins at the
  -- register, in the two bytes after the register's own; these are as they were, and so what the firmware
  -- finds there.
  pub number_displaced :
      (p : CmtPeripheral) (s : m.State) (addr number word : ℕ) {bs : List ℕ}
      → PrefixLaws m
      → BigEndianLaws e
      → AddressLaws m
      → IsWired p
      → IsNarrow p.cmt_0
      → IsNarrow p.cmt_1
      → IsNumber p addr number
      → m.view_values s addr 4 ≡ some bs
      → AllBytes bs
      → e.read_u32 bs ≡ some word
      → word < 2 ^ 32
      → (s' : m.State) × (hook_memory_read iter m e p s addr ≡ ok s')
        × (m.view_values s' addr 4 ≡ some (e.write_u32 (word / 2 ^ 16 * 2 ^ 16 + number % 2 ^ 16)))
        × (m.view_values s' addr 2 ≡ m.view_values s addr 2)
  unfolding hook_memory_read
  number_displaced p s addr number word prefixes order_laws addresses wire n0 n1 register seen all
        read fits =
      let is_register = IsNumber-IsRegister p addr number register in
      let (small, inside) =
        register_inside iter order m e laws bytes prefixes order_laws addr is_register in
      let inside' : in_range p.address_range addr ≡ true =
        ap (λ r. in_range r addr) wire.range ∙ inside in
      let (s', done, stored) =
        read_register-number p s addr word number wire n0 n1 register seen read fits in
      let hooked : hook_memory_read iter m e p s addr ≡ ok s' =
        rw (addresses.to_u32_small addr small) (rw inside' done) in
      let (t, hooked_t, missed) =
        read_misses_register iter order m e laws bytes prefixes order_laws p s addr addresses wire
          n0 n1 is_register seen all in
      let same : ok t ≡ ok s' = sym hooked_t ∙ hooked in
      let equal : t ≡ s' = cc same in
      let view = laws.view_set s addr _ stored in
      (s', hooked, rw (bytes.length_write_u32 _) at view, rw equal at missed)
