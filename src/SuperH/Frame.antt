-- ===== src/SuperH/Frame.antt =====
-- The frame that an interrupt of src/SuperH/compare_match_timer.rs leaves on the stack.
use fuguex_peripheral.Base.{
  ℕ, ◌-◌, ◌^◌, ◌<◌, ◌≤◌, ◌≡◌, ◌∙◌, inl, inr, arith, List, some, ok, length,
}
use fuguex_peripheral.Machine.{
  Machine, ByteOrder, MemoryLaws, StackLaws, AddressLaws, ByteOrderLaws,
}
use fuguex_peripheral.SuperH.Step.{push_frame}

module _ (m : Machine) (e : ByteOrder) where
  -- A state whose stack has room for a frame, and what the frame will hold.
  pub record HasStack (s : m.State) (sp sr : ℕ) : Type 0 where
    pub pointer : m.stack_pointer_value s ≡ some sp
    pub room : 8 ≤ sp
    pub sr_reg : m.Register
    pub named : m.register_by_name s "sr" ≡ some sr_reg
    pub saved : m.get_operand s sr_reg ≡ some sr
    pub below_4 : List ℕ
    pub mapped_4 : m.view_values s (sp - 4) 4 ≡ some below_4
    pub below_8 : List ℕ
    pub mapped_8 : m.view_values s (sp - 8) 4 ≡ some below_8

  -- The frame of an interrupt that was taken at `address`.
  pub record IsFramed (sp sr address : ℕ) (t : m.State) : Type 0 where
    pub moved : m.stack_pointer_value t ≡ some (sp - 8)
    pub status : m.view_values t (sp - 4) 4 ≡ some (e.write_u32 sr)
    pub counter : m.view_values t (sp - 8) 4 ≡ some (e.write_u32 address)

module _ (m : Machine) (e : ByteOrder) (laws : MemoryLaws m) (stack : StackLaws m)
    (addresses : AddressLaws m) (bytes : ByteOrderLaws e) where
  store :
      (s : m.State) (a v : ℕ) {old : List ℕ}
      → m.view_values s a 4 ≡ some old
      → (t : m.State) × (m.fill_values s a (e.write_u32 v) ≡ some t)
        × (m.set_values s a (e.write_u32 v) ≡ some t)
  store s a v {old = old} seen =
      let mapped : m.view_values s a (length (e.write_u32 v)) ≡ some old =
        rw (bytes.length_write_u32 v) seen in
      let (t, done) = laws.set_mapped s a (e.write_u32 v) mapped in
      (t, stack.fill_as_set s a (e.write_u32 v) ∙ done, done)

  push_frame_steps :
      (s s' s'' t : m.State) {sp sr address upper lower : ℕ} {reg : m.Register}
      → m.stack_pointer_value s ≡ some sp
      → m.register_by_name s "sr" ≡ some reg
      → m.get_operand s reg ≡ some sr
      → m.address_sub sp 4 ≡ upper
      → m.fill_values s upper (e.write_u32 sr) ≡ some s'
      → m.address_to_u32 address ≡ some address
      → m.address_sub upper 4 ≡ lower
      → m.fill_values s' lower (e.write_u32 address) ≡ some s''
      → m.set_stack_pointer_value s'' lower ≡ some t
      → push_frame m e s address ≡ ok t
  unfolding push_frame
  push_frame_steps s s' s'' t pointer named saved first filled small second filled' moved =
      rw pointer
        (rw named (rw saved (rw first (rw filled (rw small (rw second (rw filled' (rw moved))))))))

  pub push_frame-IsFramed :
      (s : m.State) (sp sr address : ℕ)
      → HasStack m e s sp sr
      → address < 2 ^ 32
      → (t : m.State) × (push_frame m e s address ≡ ok t) × IsFramed m e sp sr address t
  push_frame-IsFramed s sp sr address has small =
      let first : m.address_sub sp 4 ≡ sp - 4 =
        addresses.sub_exact sp 4 (omega (arith, has.room)) in
      let second : m.address_sub (sp - 4) 4 ≡ sp - 8 =
        addresses.sub_exact (sp - 4) 4 (omega (arith, has.room)) ∙ omega arith in
      let (s', filled, stored) = store s (sp - 4) sr has.mapped_4 in
      let apart : m.view_values s' (sp - 8) 4 ≡ m.view_values s (sp - 8) 4 =
        laws.view_set_elsewhere s (sp - 4) (sp - 8) 4 (e.write_u32 sr) stored
          (inl (omega (arith, has.room))) in
      let (s'', filled', stored') = store s' (sp - 8) address (apart ∙ has.mapped_8) in
      let kept : m.stack_pointer_value s'' ≡ some sp =
        stack.stack_pointer_set s' _ _ stored'
        ∙ stack.stack_pointer_set s _ _ stored
        ∙ has.pointer in
      let (t, moved) = stack.set_stack_pointer_defined s'' (sp - 8) kept in
      let same : (n : ℕ) → m.view_values t n 4 ≡ m.view_values s'' n 4 =
        λ n. stack.view_set_stack_pointer s'' (sp - 8) n 4 moved in
      let four = bytes.length_write_u32 in
      (
        t,
        push_frame_steps s s' s'' t has.pointer has.named has.saved first filled
            (addresses.to_u32_small address small) second filled' moved,
        record {
          moved = stack.set_stack_pointer s'' (sp - 8) moved;
          status =
              same (sp - 4)
              ∙ laws.view_set_elsewhere s' (sp - 8) (sp - 4) 4 (e.write_u32 address) stored'
                  (inr (omega (arith, four address, has.room)))
              ∙ (rw (four sr) at (laws.view_set s (sp - 4) (e.write_u32 sr) stored));
          counter =
              same (sp - 8)
              ∙ (rw (four address) at (laws.view_set s' (sp - 8) (e.write_u32 address) stored'));
        },
      )
