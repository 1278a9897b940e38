-- ===== src/Rscan/Unavailable.antt =====
-- The RS-CAN controller of src/v850/rscan.rs in socket mode whose interface cannot be opened, through the
-- hooks of src/polling/memory.rs.
use Prim.Native.String.{String}
use fuguex_peripheral.Base.{
  ℕ, ◌≡◌, refl, arith, List, [], ◌∷◌, ap, none, Outcome, err, socket_can_socket, handler_error,
  unsupported_address_size, in_range, true, false,
}
use fuguex_peripheral.Base.Acts.{◌>>=◌, act-err}
use fuguex_peripheral.Machine.{Machine, ByteOrder, AddressLaws}
use fuguex_peripheral.Polling.{MemoryPollingPeripheral, Mutex, locked, hook_memory_read}
use fuguex_peripheral.Polling.Shared.{Access, reading, access, accesses}
use fuguex_peripheral.Rscan.{RsCan, connect, get_regs_range, get_reg_addr}
use fuguex_peripheral.Rscan.Can.{Socketcan}
use fuguex_peripheral.Rscan.Handler.{handler}
use fuguex_peripheral.Rscan.Input.{
  polling_error, connected, read_socket, next_frame, input_rfid, input_rfdf, handle_input,
}
use fuguex_peripheral.Rscan.Reception.{rfid, rfdf}
use fuguex_peripheral.Rscan.Transmission.{wired}

-- The reads by which firmware takes a message.
pub data ReadsMessage : Access → Type 0 where
  reads_id : (size : ℕ) → ReadsMessage (reading rfid size)
  reads_data : (size : ℕ) → ReadsMessage (reading rfdf size)

abbrev pub AllReadMessages : List Access → Type 0
AllReadMessages [] = Unit {0}
AllReadMessages (a ∷ rest) = ReadsMessage a × AllReadMessages rest

-- The error of the hook, for each of a list of accesses.
abbrev pub refusals : List Access → List (Outcome (Unit {0}))
refusals [] = []
refusals (a ∷ rest) = err (unsupported_address_size 0) ∷ refusals rest

module _ (c : Socketcan) (m : Machine) (e : ByteOrder) (addresses : AddressLaws m)
    (p : MemoryPollingPeripheral) (interface : String) (queue : List c.CanFrame)
    (closed : c.open_socket interface ≡ none) where
  abbrev pub unconnected : RsCan c
  unconnected = wired c none interface queue true

  abbrev pub sound : Mutex (RsCan c)
  sound = record { value = unconnected; poisoned = false }

  connect-err : connect c unconnected ≡ (unconnected, err socket_can_socket)
  unfolding connect
  connect-err = rw closed refl

  connected-err :
      (s : m.State) → connected c m e (unconnected, s) ≡ ((unconnected, s), err handler_error)
  connected-err s = ap (λ found. ((found.0, s), polling_error found.1)) connect-err

  next_frame-err :
      (s : m.State) → next_frame c m e (unconnected, s) ≡ ((unconnected, s), err handler_error)
  unfolding next_frame read_socket
  next_frame-err s = act-err (connected c m e) _ (connected-err s)

  input_rfid-err :
      (s : m.State) → input_rfid c m e (unconnected, s) ≡ ((unconnected, s), err handler_error)
  unfolding input_rfid
  input_rfid-err s = act-err _ _ (next_frame-err s)

  input_rfdf-err :
      (s : m.State) → input_rfdf c m e (unconnected, s) ≡ ((unconnected, s), err handler_error)
  unfolding input_rfdf
  input_rfdf-err s = act-err _ _ (next_frame-err s)

  rfid-err :
      (s : m.State)
      → handle_input c m e rfid (unconnected, s) ≡ ((unconnected, s), err handler_error)
  unfolding handle_input get_reg_addr ◌>>=◌
  rfid-err s = input_rfid-err s

  rfdf-err :
      (s : m.State)
      → handle_input c m e rfdf (unconnected, s) ≡ ((unconnected, s), err handler_error)
  unfolding handle_input get_reg_addr ◌>>=◌
  rfdf-err s = rw (addresses.add_exact 0xffd00e0c 4 (omega arith)) (input_rfdf-err s)

  read_refused :
      (s : m.State) (addr size : ℕ)
      → in_range p.address_range addr ≡ true
      → handle_input c m e addr (unconnected, s) ≡ ((unconnected, s), err handler_error)
      → access (handler c m e) p (reading addr size) sound s
        ≡ (sound, s, err (unsupported_address_size 0))
  unfolding access hook_memory_read locked
  read_refused s addr size inside failed = rw inside (rw failed refl)

  access-ReadsMessage :
      (s : m.State) (a : Access)
      → p.address_range ≡ get_regs_range
      → ReadsMessage a
      → access (handler c m e) p a sound s ≡ (sound, s, err (unsupported_address_size 0))
  access-ReadsMessage s _ whole (reads_id size) =
      read_refused s rfid size (rw whole refl) (rfid-err s)
  access-ReadsMessage s _ whole (reads_data size) =
      read_refused s rfdf size (rw whole refl) (rfdf-err s)

  -- In socket mode without a socket, on an interface that cannot be opened, the reads by which firmware
  -- takes a message, however many, are each refused with the hook's error: nothing panics, the mutex stays
  -- sound, and the controller and the emulator's state stay as they are.
  pub reads_refused :
      (rest : List Access) (s : m.State)
      → p.address_range ≡ get_regs_range
      → AllReadMessages rest
      → accesses (handler c m e) p rest sound s ≡ (sound, s, refusals rest)
  unfolding accesses
  reads_refused [] s whole all = refl
  reads_refused (a ∷ rest) s whole (reads, all) =
      rw (access-ReadsMessage s a whole reads) (rw (reads_refused rest s whole all) refl)
