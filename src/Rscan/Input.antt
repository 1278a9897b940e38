-- ===== src/Rscan/Input.antt =====
-- `handle_input` of src/v850/rscan.rs: what a read of a register by the firmware finds. The size that is
-- read is not used; log output is left out.
use fuguex_peripheral.Base.{
  ℕ, ◌*◌, ◌%◌, ◌^◌, ◌&&◌, some, Outcome, ok, err, panic, handler_error, unwrap, length, take,
  from_le_bytes, bit_and, bit_or, ltb, leb, ◌==◌, if◌then◌else◌,
}
use fuguex_peripheral.Base.Acts.{Act, ◌>>=◌, ◌>>◌, pure, lift}
use fuguex_peripheral.Machine.{Machine, ByteOrder}
use fuguex_peripheral.Rscan.{Both, reg, view, set, connect, peek_can_msg}
use fuguex_peripheral.Rscan.Can.{Socketcan}

-- `From<Error> for polling::Error`, at a `?`.
abbrev pub polling_error {ℓ} : {A : Type ℓ} → Outcome A → Outcome A
polling_error (ok a) = ok a
polling_error (err e) = err handler_error
polling_error panic = panic

-- `usize` to `u8`.
abbrev pub to_u8 : ℕ → Outcome ℕ
to_u8 n = if ltb n 256 then ok n else panic

-- The bits RFEMP and RFMC: the number of unread messages, or that there is none.
abbrev pub unread : ℕ → ℕ → ℕ
unread msg_counter word =
    if ltb 0 msg_counter then bit_or (bit_and word 0xffff00fe) (msg_counter * 2 ^ 8) else 0x01

-- An id of more than 11 bits is shown as this constant, without the id.
abbrev pub id_word : ℕ → ℕ
id_word can_id = if ltb 0 (bit_and can_id 0xfffff800) then 0x8000000 else bit_and can_id 0x7ff

module _ (c : Socketcan) (m : Machine) (e : ByteOrder) where
  abbrev pub connected : Act (Both c m e) c.Socket
  connected (r, s) = let (r', result) = connect c r in ((r', s), polling_error result)

  abbrev pub keep_socket : c.Socket → Act (Both c m e) (Unit {0})
  keep_socket socket (r, s) = ((record r { socket = some socket }, s), ok tt)

  -- A frame from the socket, after at most a second; the socket stays locked for the call only.
  unfoldable pub read_socket : Act (Both c m e) c.CanFrame
  read_socket = do
    socket ← connected
    timed ← lift (unwrap (c.set_read_timeout socket 1))
    (frame, socket') ← lift (unwrap (c.read_frame timed))
    keep_socket socket'
    pure frame

  unfoldable pub next_frame : Act (Both c m e) c.CanFrame
  next_frame (r, s) =
      if r.select_vcan_mode then read_socket (r, s) else ((r, s), unwrap (peek_can_msg c r))

  unfoldable pub input_tmsts : ℕ → Act (Both c m e) (Unit {0})
  input_tmsts input = do value_var ← view c m e input 4; pure tt

  -- A register that always shows the same word.
  unfoldable pub input_constant : ℕ → ℕ → Act (Both c m e) (Unit {0})
  input_constant reg_addr reg_val = set c m e reg_addr (e.write_u32 reg_val)

  unfoldable pub input_rfsts : ℕ → ℕ → Act (Both c m e) (Unit {0})
  input_rfsts reg_addr input (r, s) =
      (do
        msg_counter ← lift (to_u8 (length r.data_queue))
        bytes ← view c m e reg_addr 4
        reg_val ← lift (unwrap (e.read_u32 bytes))
        set c m e reg_addr (e.write_u32 (unread msg_counter reg_val))
        value ← view c m e input 4
        pure tt)
        (r, s)

  unfoldable pub input_rfptr : ℕ → Act (Both c m e) (Unit {0})
  input_rfptr reg_addr (r, s) =
      (do
        last_can_msg ← lift (unwrap (peek_can_msg c r))
        data_len ← lift (to_u8 (length (c.payload last_can_msg)))
        set c m e reg_addr (e.write_u32 (bit_or (data_len * 2 ^ 28 % 2 ^ 32) 0x0)))
        (r, s)

  unfoldable pub input_rfid : Act (Both c m e) (Unit {0})
  input_rfid = do
    can_frame ← next_frame
    addr_rfid0 ← reg c m e "RFID0"
    set c m e addr_rfid0 (e.write_u32 (id_word (c.id can_frame)))

  -- `read_u64::<LE>` of a frame's bytes, which fails on fewer than 8.
  unfoldable pub input_rfdf : Act (Both c m e) (Unit {0})
  input_rfdf = do
    can_frame ← next_frame
    addr_rfdf00 ← reg c m e "RFDF00"
    word ← lift (
        if ltb (length (c.payload can_frame)) 8
        then panic
        else ok (from_le_bytes (take 8 (c.payload can_frame))))
    set c m e addr_rfdf00 (e.write_u64 word)

  -- The source looks a name up at the test that needs it; all these names are in the map.
  unfoldable pub handle_input : ℕ → Act (Both c m e) (Unit {0})
  handle_input input = do
    tmsts ← reg c m e "TMSTS0"
    c0sts ← reg c m e "C0STS"
    c0erfl ← reg c m e "C0ERFL"
    rfsts ← reg c m e "RFSTS0"
    rfptr ← reg c m e "RFPTR0"
    rfid ← reg c m e "RFID0"
    rfdf00 ← reg c m e "RFDF00"
    rfdf10 ← reg c m e "RFDF10"
    if input == tmsts
        then input_tmsts input
        else if input == c0sts
        then input_constant c0sts 0x80
        else if input == c0erfl
        then input_constant c0erfl 0x0
        else if input == rfsts
        then input_rfsts rfsts input
        else if input == rfptr
        then input_rfptr rfptr
        else if input == rfid
        then input_rfid
        else if leb rfdf00 input && ltb input (m.address_add rfdf10 4)
        then input_rfdf
        else pure tt
