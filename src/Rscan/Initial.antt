-- ===== src/Rscan/Initial.antt =====
-- `init` of src/v850/rscan.rs, and the status that the firmware sees after it.
use Prim.Native.String.{String}
use fuguex_peripheral.Base.{
  ◌<◌, ◌/◌, ◌%◌, ◌^◌, ◌==◌, if◌then◌else◌, ℕ, ◌+◌, ◌≤◌, ◌≡◌, refl, ◌∙◌, inl, inr, arith, Bool, List,
  [], ◌∷◌, Option, some, ok, length,
}
use fuguex_peripheral.Base.Acts.{act-step}
use fuguex_peripheral.Machine.{Machine, ByteOrder, MemoryLaws, ByteOrderLaws}
use fuguex_peripheral.Rscan.{RsCan, reg, init, get_reg_addr}
use fuguex_peripheral.Rscan.Can.{Socketcan}
use fuguex_peripheral.Rscan.Input.{handle_input}
use fuguex_peripheral.Machine.Stores.{store}
use fuguex_peripheral.Rscan.Stores.{set-step}
use fuguex_peripheral.Rscan.Transmission.{wired}
use fuguex_peripheral.Rscan.Status.{rfsts, rfsts_shows_count}

abbrev pub tmsts : ℕ
tmsts = 0xffd002d0

abbrev pub gsts : ℕ
gsts = 0xffd0008c

module _ (c : Socketcan) (m : Machine) (e : ByteOrder) where
  -- The registers that `init` writes.
  pub record HasStatus (s : m.State) : Type 0 where
    pub old_tmsts : List ℕ
    pub mapped_tmsts : m.view_values s tmsts 1 ≡ some old_tmsts
    pub old_rfsts : List ℕ
    pub mapped_rfsts : m.view_values s rfsts 4 ≡ some old_rfsts
    pub old_gsts : List ℕ
    pub mapped_gsts : m.view_values s gsts 4 ≡ some old_gsts

  init_steps :
      (r : RsCan c) (s s₁ s₂ s₃ s₄ : m.State)
      → get_reg_addr c r "TMSTS0" ≡ ok tmsts
      → get_reg_addr c r "RFSTS0" ≡ ok rfsts
      → get_reg_addr c r "GSTS" ≡ ok gsts
      → m.set_values s tmsts (0x00 ∷ []) ≡ some s₁
      → m.set_values s₁ rfsts (e.write_u32 0x01) ≡ some s₂
      → m.set_values s₂ rfsts (e.write_u32 0x00) ≡ some s₃
      → m.set_values s₃ gsts (e.write_u32 0x00) ≡ some s₄
      → init c m e (r, s) ≡ ((r, s₄), ok tt)
  unfolding init
  init_steps r s s₁ s₂ s₃ s₄ at_tmsts at_rfsts at_gsts one two three four =
      let found : (t : m.State) → reg c m e "TMSTS0" (r, t) ≡ ((r, t), ok tmsts) =
        λ t. rw at_tmsts refl in
      let found' : (t : m.State) → reg c m e "RFSTS0" (r, t) ≡ ((r, t), ok rfsts) =
        λ t. rw at_rfsts refl in
      let found'' : (t : m.State) → reg c m e "GSTS" (r, t) ≡ ((r, t), ok gsts) =
        λ t. rw at_gsts refl in
      act-step _ _ (found s) (
        act-step _ _ (set-step c m e r s s₁ _ _ one) (
          act-step _ _ (found' s₁) (
            act-step _ _ (set-step c m e r s₁ s₂ _ _ two) (
              act-step _ _ (set-step c m e r s₂ s₃ _ _ three)
                (act-step _ _ (found'' s₃) (set-step c m e r s₃ s₄ _ _ four))))))

  module _ (laws : MemoryLaws m) (bytes : ByteOrderLaws e) where
    -- What `init` leaves behind: the three registers are zero, and memory above them is as before.
    pub record IsInitial (s s' : m.State) : Type 0 where
      pub zero_tmsts : m.view_values s' tmsts 1 ≡ some (0x00 ∷ [])
      pub zero_rfsts : m.view_values s' rfsts 4 ≡ some (e.write_u32 0x00)
      pub zero_gsts : m.view_values s' gsts 4 ≡ some (e.write_u32 0x00)
      pub above : (b n : ℕ) → tmsts + 1 ≤ b → m.view_values s' b n ≡ m.view_values s b n

    pub init-IsInitial :
        (r : RsCan c) (s : m.State)
        → get_reg_addr c r "TMSTS0" ≡ ok tmsts
        → get_reg_addr c r "RFSTS0" ≡ ok rfsts
        → get_reg_addr c r "GSTS" ≡ ok gsts
        → HasStatus s
        → (s' : m.State) × (init c m e (r, s) ≡ ((r, s'), ok tt)) × IsInitial s s'
    init-IsInitial r s at_tmsts at_rfsts at_gsts has =
        let long : (v : ℕ) → length (e.write_u32 v) ≡ 4 = bytes.length_write_u32 in
        let (s₁, one, seen₁) = store m laws s tmsts (0x00 ∷ []) 1 refl has.mapped_tmsts in
        let kept₁ : (b n : ℕ) → (b + n ≤ tmsts) → m.view_values s₁ b n ≡ m.view_values s b n =
          λ b n low. laws.view_set_elsewhere s tmsts b n _ one (inl low) in
        let (s₂, two, seen₂) =
          store m laws s₁ rfsts (e.write_u32 0x01) 4 (long 1)
            (kept₁ rfsts 4 (omega arith) ∙ has.mapped_rfsts) in
        let (s₃, three, seen₃) = store m laws s₂ rfsts (e.write_u32 0x00) 4 (long 0) seen₂ in
        let kept₃ : (b n : ℕ) → (b + n ≤ rfsts) → m.view_values s₃ b n ≡ m.view_values s₁ b n =
          λ b n low.
            laws.view_set_elsewhere s₂ rfsts b n _ three (inl low)
            ∙ laws.view_set_elsewhere s₁ rfsts b n _ two (inl low) in
        let over₃ : (b n : ℕ) → (rfsts + 4 ≤ b) → m.view_values s₃ b n ≡ m.view_values s₁ b n =
          λ b n high.
            laws.view_set_elsewhere s₂ rfsts b n _ three (inr (omega (arith, long 0)))
            ∙ laws.view_set_elsewhere s₁ rfsts b n _ two (inr (omega (arith, long 1))) in
        let (s₄, four, seen₄) =
          store m laws s₃ gsts (e.write_u32 0x00) 4 (long 0)
            (kept₃ gsts 4 (omega arith) ∙ kept₁ gsts 4 (omega arith) ∙ has.mapped_gsts) in
        let over₄ : (b n : ℕ) → (gsts + 4 ≤ b) → m.view_values s₄ b n ≡ m.view_values s₃ b n =
          λ b n high. laws.view_set_elsewhere s₃ gsts b n _ four (inr (omega (arith, long 0))) in
        (
          s₄,
          init_steps r s s₁ s₂ s₃ s₄ at_tmsts at_rfsts at_gsts one two three four,
          record {
            zero_tmsts = over₄ tmsts 1 (omega arith) ∙ over₃ tmsts 1 (omega arith) ∙ seen₁;
            zero_rfsts = over₄ rfsts 4 (omega arith) ∙ seen₃;
            zero_gsts = seen₄;
            above = λ b n high.
                over₄ b n (omega arith)
                ∙ over₃ b n (omega arith)
                ∙ laws.view_set_elsewhere s tmsts b n _ one (inr (omega arith));
          },
        )

    -- `init` leaves RFSTS0 at zero, which does not say that the queue is empty. Where at most 255 messages
    -- wait, the next read of RFSTS0 puts that right: it shows their number, and whether there is none.
    pub init_then_status :
        (socket : Option c.Socket) (interface : String) (frames : List c.CanFrame) (mode : Bool)
        (s : m.State)
        → length frames < 256
        → HasStatus s
        → (s' s'' : m.State) × (v : ℕ) × (init c m e (wired c socket interface frames mode, s)
            ≡ ((wired c socket interface frames mode, s'), ok tt))
          × (m.view_values s' rfsts 4 ≡ some (e.write_u32 0))
          × (handle_input c m e rfsts (wired c socket interface frames mode, s')
              ≡ ((wired c socket interface frames mode, s''), ok tt))
          × (m.view_values s'' rfsts 4 ≡ some (e.write_u32 v))
          × (v / 2 ^ 8 % 2 ^ 8 ≡ length frames)
          × (v % 2 ≡ (if length frames == 0 then 1 else 0))
    unfolding get_reg_addr
    init_then_status socket interface frames mode s few has =
        let (s', done, initial) =
          init-IsInitial (wired c socket interface frames mode) s refl refl refl has in
        let (s'', v, shown, seen, count, empty) =
          rfsts_shows_count c m e laws bytes socket interface frames mode s' 0 few
            initial.zero_rfsts (bytes.read_write_u32 0 (omega arith)) in
        (s', s'', v, done, initial.zero_rfsts, shown, seen, count, empty)
