-- ===== src/Rscan/Output.antt =====
-- `handle_output` of src/v850/rscan.rs: what a write of a register by the firmware does. The size that
-- is written is not used; log output is left out.
use fuguex_peripheral.Base.{
  ℕ, zero, suc, ◌*◌, ◌/◌, ◌%◌, ◌^◌, false, not, ◌&&◌, List, [], ◌∷◌, Option, some, none, Outcome,
  ok, err, panic, handler_error, unwrap, length, take, bit_and, bit_or, ltb, leb, ◌==◌,
  if◌then◌else◌,
}
use fuguex_peripheral.Base.Acts.{Act, ◌>>=◌, ◌>>◌, pure, lift}
use fuguex_peripheral.Machine.{Machine, ByteOrder}
use fuguex_peripheral.Rscan.{Both, reg, view, dequeue_can_msg, get_reg_val, set_reg_value_u8}
use fuguex_peripheral.Rscan.Can.{Socketcan}
use fuguex_peripheral.Rscan.Input.{connected, keep_socket}

-- The id to send to: 29 bits of an extended one, 11 of a standard one.
abbrev pub to_id : ℕ → ℕ
to_id tmid =
    if not (bit_and tmid 0x80000000 == 0) then bit_and tmid 0x1fffffff else bit_and tmid 0x7ff

-- `write_u64::<LE>` into a fresh vector.
abbrev pub le_bytes : ℕ → ℕ → List ℕ
le_bytes zero v = []
le_bytes (suc n) v = v % 256 ∷ le_bytes n (v / 256)

-- `value[0]`.
abbrev pub first_byte : List ℕ → Outcome ℕ
first_byte [] = panic
first_byte (b ∷ bytes) = ok b

-- `&data_slice[..data_len as usize]`.
abbrev pub slice_to : ℕ → List ℕ → Outcome (List ℕ)
slice_to n bytes = if leb n (length bytes) then ok (take n bytes) else panic

module _ (c : Socketcan) (m : Machine) (e : ByteOrder) where
  -- An `Err` of `CANFrame::new` or of `write_frame` is handed on by `?`.
  abbrev pub or_error {ℓ} : {A : Type ℓ} → Option A → Outcome A
  or_error (some a) = ok a
  or_error none = err handler_error

  -- Without a socket the frame is only logged.
  unfoldable pub send : ℕ → ℕ → List ℕ → Act (Both c m e) (Unit {0})
  send id data_len data_slice (r, s) =
      if r.select_vcan_mode
      then (do
        socket ← connected c m e
        bytes ← lift (slice_to data_len data_slice)
        frame ← lift (or_error (c.new_frame id bytes false false))
        socket' ← lift (or_error (c.write_frame socket frame))
        keep_socket c m e socket')
          (r, s)
      else ((r, s), ok tt)

  -- `O::read_u64` of the four bytes at a register.
  unfoldable pub read_u64_at : ℕ → Act (Both c m e) ℕ
  read_u64_at addr = do bytes ← view c m e addr 4; lift (unwrap (e.read_u64 bytes))

  -- A request for transmission.
  unfoldable pub transmit : ℕ → Act (Both c m e) (Unit {0})
  transmit tmc_value = do
    tmid ← get_reg_val c m e "TMID0"
    tmptr ← get_reg_val c m e "TMPTR0"
    let data_len = bit_and tmptr 0xf0000000 / 2 ^ 28
    addr_l ← reg c m e "TMDF00"
    datal ← read_u64_at addr_l
    addr_h ← reg c m e "TMDF10"
    datah ← read_u64_at addr_h
    let data_slice = le_bytes 8 (bit_or datal (datah * 2 ^ 32 % 2 ^ 64))
    set_reg_value_u8 c m e "TMC0" (bit_and tmc_value 0xfe)
    send (to_id tmid) data_len data_slice

  unfoldable pub output_tmc : List ℕ → Act (Both c m e) (Unit {0})
  output_tmc value = do
    tmc_value ← lift (first_byte value)
    if not (bit_and tmc_value 0x01 == 0) then transmit tmc_value else pure tt

  -- `dequeue_can_msg().unwrap()`.
  unfoldable pub output_rfpctr : Act (Both c m e) (Unit {0})
  output_rfpctr (r, s) =
      let (r', frame) = dequeue_can_msg c r in
      elim frame [ some f ↦ ((r', s), ok tt) | none ↦ ((r', s), panic) ]

  -- The source looks a name up at the test that needs it; all these names are in the map.
  unfoldable pub handle_output : ℕ → List ℕ → Act (Both c m e) (Unit {0})
  handle_output output value = do
    tmsts ← reg c m e "TMSTS0"
    tmdf00 ← reg c m e "TMDF00"
    tmdf10 ← reg c m e "TMDF10"
    tmc ← reg c m e "TMC0"
    rfpctr ← reg c m e "RFPCTR0"
    if output == tmsts
        then pure tt
        else if leb tmdf00 output && ltb output (m.address_add tmdf10 4)
        then pure tt
        else if output == tmc
        then output_tmc value
        else if output == rfpctr
        then output_rfpctr
        else pure tt
