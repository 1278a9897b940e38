-- ===== src/Rscan/Poisoned.antt =====
-- Accesses to the RS-CAN controller of src/v850/rscan.rs that find no message, through the hooks of
-- src/polling/memory.rs.
use fuguex_peripheral.Base.{ℕ, ◌≡◌, refl, arith, List, [], ◌∷◌, panic, in_range, true, false}
use fuguex_peripheral.Base.Acts.{◌>>=◌}
use fuguex_peripheral.Machine.{Machine, ByteOrder, AddressLaws}
use fuguex_peripheral.Polling.{
  MemoryPollingPeripheral, Mutex, locked, hook_memory_read, hook_memory_write,
}
use fuguex_peripheral.Polling.Shared.{
  Access, reading, writing, access, accesses, blocked, panic_poisons,
}
use fuguex_peripheral.Rscan.{RsCan, get_regs_range, get_reg_addr, dequeue_can_msg}
use fuguex_peripheral.Rscan.Can.{Socketcan}
use fuguex_peripheral.Rscan.Handler.{handler}
use fuguex_peripheral.Rscan.Input.{next_frame, input_rfid, input_rfdf, input_rfptr, handle_input}
use fuguex_peripheral.Rscan.Output.{output_rfpctr, handle_output}
use fuguex_peripheral.Rscan.Reception.{rfid, rfdf, rfpctr, waiting}

abbrev pub rfptr : ℕ
rfptr = 0xffd00e04

-- The accesses by which firmware takes a message.
pub data Taking : Access → Type 0 where
  taking_id : (size : ℕ) → Taking (reading rfid size)
  taking_data : (size : ℕ) → Taking (reading rfdf size)
  taking_pointer : (size : ℕ) → Taking (reading rfptr size)
  taking_next : (size : ℕ) (value : List ℕ) → Taking (writing rfpctr size value)

module _ (c : Socketcan) (m : Machine) (e : ByteOrder) (addresses : AddressLaws m)
    (p : MemoryPollingPeripheral) where
  abbrev pub sound : Mutex (RsCan c)
  sound = record { value = waiting c []; poisoned = false }

  rfid_panics :
      (s : m.State) → handle_input c m e rfid (waiting c [], s) ≡ ((waiting c [], s), panic)
  unfolding handle_input input_rfid next_frame get_reg_addr ◌>>=◌
  rfid_panics s = refl

  rfptr_panics :
      (s : m.State) → handle_input c m e rfptr (waiting c [], s) ≡ ((waiting c [], s), panic)
  unfolding handle_input input_rfptr get_reg_addr ◌>>=◌
  rfptr_panics s = refl

  rfdf_panics :
      (s : m.State) → handle_input c m e rfdf (waiting c [], s) ≡ ((waiting c [], s), panic)
  unfolding handle_input input_rfdf next_frame get_reg_addr ◌>>=◌
  rfdf_panics s = rw (addresses.add_exact 0xffd00e0c 4 (omega arith)) refl

  rfpctr_panics :
      (s : m.State) (value : List ℕ)
      → handle_output c m e rfpctr value (waiting c [], s) ≡ ((waiting c [], s), panic)
  unfolding handle_output output_rfpctr dequeue_can_msg get_reg_addr ◌>>=◌
  rfpctr_panics s value = refl

  read_poisons :
      (s : m.State) (addr size : ℕ)
      → in_range p.address_range addr ≡ true
      → handle_input c m e addr (waiting c [], s) ≡ ((waiting c [], s), panic)
      → access (handler c m e) p (reading addr size) sound s
        ≡ (record sound { poisoned = true }, s, panic)
  unfolding access hook_memory_read locked
  read_poisons s addr size inside failed = rw inside (rw failed refl)

  write_poisons :
      (s : m.State) (addr size : ℕ) (value : List ℕ)
      → in_range p.address_range addr ≡ true
      → handle_output c m e addr value (waiting c [], s) ≡ ((waiting c [], s), panic)
      → access (handler c m e) p (writing addr size value) sound s
        ≡ (record sound { poisoned = true }, s, panic)
  unfolding access hook_memory_write locked
  write_poisons s addr size value inside failed = rw inside (rw failed refl)

  Taking-panics :
      (s : m.State) (a : Access)
      → p.address_range ≡ get_regs_range
      → Taking a
      → access (handler c m e) p a sound s ≡ (record sound { poisoned = true }, s, panic)
  Taking-panics s _ whole (taking_id size) =
      read_poisons s rfid size (rw whole refl) (rfid_panics s)
  Taking-panics s _ whole (taking_data size) =
      read_poisons s rfdf size (rw whole refl) (rfdf_panics s)
  Taking-panics s _ whole (taking_pointer size) =
      read_poisons s rfptr size (rw whole refl) (rfptr_panics s)
  Taking-panics s _ whole (taking_next size value) =
      write_poisons s rfpctr size value (rw whole refl) (rfpctr_panics s value)

  -- Firmware that asks for a message while none waits, in queued mode, takes the controller down: that
  -- access panics, and poisons the mutex; whatever accesses follow, those in the range of the registers
  -- panic and change nothing.
  pub empty_queue_poisons :
      (s : m.State) (a : Access) (rest : List Access)
      → p.address_range ≡ get_regs_range
      → Taking a
      → accesses (handler c m e) p (a ∷ rest) sound s ≡ (
        record sound { poisoned = true },
        s,
        panic ∷ blocked (handler c m e) p.address_range rest,
      )
  unfolding accesses
  empty_queue_poisons s a rest whole taking =
      let failed = Taking-panics s a whole taking in
      rw failed (
        rw
          (panic_poisons (handler c m e) p a rest sound (record sound { poisoned = true }) s s
            failed)
          refl)
