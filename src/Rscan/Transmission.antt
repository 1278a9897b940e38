-- ===== src/Rscan/Transmission.antt =====
-- Transmission through src/v850/rscan.rs: a request in TMC0 reads the data registers as words of eight
-- bytes out of four.
use Prim.Native.String.{String}
use fuguex_peripheral.Base.{
  ℕ, ◌≡◌, refl, inl, inr, arith, Bool, false, ◌⊎◌, List, ◌∷◌, Option, Option-cases, ok, panic,
  length, bit_and, ◌==◌,
}
use fuguex_peripheral.Base.Acts.{◌>>=◌, act-step, act-panic}
use fuguex_peripheral.Machine.{Machine, ByteOrder, MemoryLaws, ByteOrderLaws}
use fuguex_peripheral.Rscan.{RsCan, reg, get_reg_addr, get_reg_val, get_peripheral_regs}
use fuguex_peripheral.Rscan.Can.{Socketcan}
use fuguex_peripheral.Rscan.Output.{handle_output, output_tmc, transmit, read_u64_at}

abbrev pub tmc : ℕ
tmc = 0xffd00250

-- A controller in either mode, with its registers where every constructor puts them.
abbrev pub wired : (c : Socketcan) → Option c.Socket → String → List c.CanFrame → Bool → RsCan c
wired c socket interface frames mode = record {
  socket = socket;
  interface = interface;
  regisiters = get_peripheral_regs;
  data_queue = frames;
  select_vcan_mode = mode;
}

module _ (c : Socketcan) (m : Machine) (e : ByteOrder) (laws : MemoryLaws m)
    (bytes : ByteOrderLaws e) where
  read_u64_at-panic :
      (r : RsCan c) (s : m.State) (addr : ℕ) → read_u64_at c m e addr (r, s) ≡ ((r, s), panic)
  unfolding read_u64_at ◌>>=◌
  read_u64_at-panic r s addr = elim (Option-cases (m.view_values s addr 4)) [
    | inl unmapped ↦ rw unmapped refl
    | inr (bs, seen) ↦
        let four : length bs ≡ 4 = laws.length_view s addr 4 seen in
        rw seen (rw (bytes.read_u64_short bs (omega (arith, four))) refl)
  ]

  -- Reading a register finds a word or panics.
  get_reg_val-cases :
      (r : RsCan c) (s : m.State) (name : String) (addr : ℕ)
      → get_reg_addr c r name ≡ ok addr
      → (get_reg_val c m e name (r, s) ≡ ((r, s), panic))
        ⊎ ((v : ℕ) × (get_reg_val c m e name (r, s) ≡ ((r, s), ok v)))
  unfolding get_reg_val ◌>>=◌
  get_reg_val-cases r s name addr found = elim (Option-cases (m.view_values s addr 4)) [
    | inl unmapped ↦ inl (rw found (rw unmapped refl))
    | inr (bs, seen) ↦
        let (v, read, fits) =
          bytes.read_u32_defined bs (omega (arith, laws.length_view s addr 4 seen)) in
        inr (v, rw found (rw seen (rw read refl)))
  ]

  module _ (socket : Option c.Socket) (interface : String) (frames : List c.CanFrame) (mode : Bool)
      (s : m.State) where
    abbrev here : RsCan c
    here = wired c socket interface frames mode

    found_tmdf00 : reg c m e "TMDF00" (here, s) ≡ ((here, s), ok 0xffd01008)
    unfolding get_reg_addr
    found_tmdf00 = refl

    transmit-panic : (tmc_value : ℕ) → transmit c m e tmc_value (here, s) ≡ ((here, s), panic)
    unfolding transmit
    transmit-panic tmc_value =
        elim (get_reg_val-cases here s "TMID0" 0xffd01000 (unfold get_reg_addr in refl)) [
          | inl none_id ↦ act-panic _ _ none_id
          | inr (tmid, id) ↦
              elim (get_reg_val-cases here s "TMPTR0" 0xffd01004 (unfold get_reg_addr in refl)) [
                | inl none_ptr ↦ act-step _ _ id (act-panic _ _ none_ptr)
                | inr (tmptr, ptr) ↦ act-step _ _ id (
                    act-step _ _ ptr (
                      act-step _ _ found_tmdf00
                        (act-panic _ _ (read_u64_at-panic here s 0xffd01008))))
              ]
        ]

    -- Whatever the registers hold and in either mode, a request for transmission panics, with nothing
    -- sent and nothing changed.
    pub transmit_panics :
        (tmc_value : ℕ) (rest : List ℕ)
        → (bit_and tmc_value 1 == 0) ≡ false
        → handle_output c m e tmc (tmc_value ∷ rest) (here, s) ≡ ((here, s), panic)
    unfolding handle_output output_tmc ◌>>=◌ get_reg_addr
    transmit_panics tmc_value rest requested = rw requested (transmit-panic tmc_value)
