-- ===== src/Rscan/Hooked.antt =====
-- The RS-CAN controller of src/v850/rscan.rs behind the polling peripheral of src/polling/memory.rs: the
-- harness builds the peripheral and fills the queue through the shared handle, and the firmware's accesses
-- go through the hooks. The firmware's own store to RFPCTR0 is the emulator's, and left out.
use fuguex_peripheral.Base.{
  ℕ, zero, suc, ◌≡◌, refl, ◌∙◌, arith, false, true, List, [], ◌∷◌, some, Outcome, ok, err, panic,
  length, unwrap, in_range,
}
use fuguex_peripheral.Base.Acts.{Act, ◌>>=◌, ◌>>◌, pure, act-step}
use fuguex_peripheral.Machine.{Machine, ByteOrder, MemoryLaws, ByteOrderLaws, AddressLaws}
use fuguex_peripheral.Polling.{
  MemoryPollingPeripheral, MemoryPollingPeripheralBuilder, Mutex, hook_memory_read,
  hook_memory_write, locked, new, build,
}
use fuguex_peripheral.Rscan.{RsCan, init, get_regs_range, new_queued, get_reg_addr}
use fuguex_peripheral.Rscan.Can.{Socketcan, FrameLaws}
use fuguex_peripheral.Rscan.Handler.{handler}
use fuguex_peripheral.Rscan.Input.{handle_input}
use fuguex_peripheral.Rscan.Output.{handle_output}
use fuguex_peripheral.Rscan.Reception.{
  rfid, rfdf, rfpctr, AreIds, waiting, IsMapped, IsReceived, Matches, receive-IsReceived,
  enqueue_all, enqueue_all-Matches, shown_all, found_all, shown_all-AreIds,
}
use fuguex_peripheral.Rscan.Initial.{HasStatus, IsInitial, init-IsInitial}

module _ (c : Socketcan) (m : Machine) (e : ByteOrder) (p : MemoryPollingPeripheral) where
  -- The mutex that the clones of the peripheral share, and the emulator's state.
  abbrev pub Device : Type 0
  Device = Mutex (RsCan c) × m.State

  abbrev pub then_view :
      ℕ → ℕ → Mutex (RsCan c) × m.State × Outcome (Unit {0}) → Device × Outcome (List ℕ)
  then_view addr n (mutex, s, ok u) = ((mutex, s), unwrap (m.view_values s addr n))
  then_view addr n (mutex, s, err why) = ((mutex, s), err why)
  then_view addr n (mutex, s, panic) = ((mutex, s), panic)

  -- A read of the firmware: the hook, and then the memory.
  unfoldable pub firmware_read : ℕ → ℕ → Act Device (List ℕ)
  firmware_read addr n (mutex, s) =
      then_view addr n (hook_memory_read (handler c m e) p mutex s addr n)

  unfoldable pub firmware_write : ℕ → List ℕ → Act Device (Unit {0})
  firmware_write addr bytes (mutex, s) =
      let (mutex', s', result) =
        hook_memory_write (handler c m e) p mutex s addr (length bytes) bytes in
      ((mutex', s'), result)

  -- The firmware takes a message, and a number of messages.
  unfoldable pub take_message : Act Device (List ℕ × List ℕ)
  take_message = do
    id_bytes ← firmware_read rfid 4
    data_bytes ← firmware_read rfdf 8
    firmware_write rfpctr (0xff ∷ [])
    pure (id_bytes, data_bytes)

  unfoldable pub take_messages : ℕ → Act Device (List (List ℕ × List ℕ))
  take_messages zero = pure []
  take_messages (suc n) = do
    message ← take_message
    messages ← take_messages n
    pure (message ∷ messages)

  abbrev pub unlocked : RsCan c → Mutex (RsCan c)
  unlocked r = record { value = r; poisoned = false }

  firmware_read-view :
      (r r' : RsCan c) (s s' : m.State) (addr n : ℕ) {bs : List ℕ}
      → in_range p.address_range addr ≡ true
      → handle_input c m e addr (r, s) ≡ ((r', s'), ok tt)
      → m.view_values s' addr n ≡ some bs
      → firmware_read addr n (unlocked r, s) ≡ ((unlocked r', s'), ok bs)
  unfolding firmware_read hook_memory_read locked
  firmware_read-view r r' s s' addr n inside handled seen = rw inside (rw handled (rw seen refl))

  firmware_write-ok :
      (r r' : RsCan c) (s s' : m.State) (addr : ℕ) (bytes : List ℕ)
      → in_range p.address_range addr ≡ true
      → handle_output c m e addr bytes (r, s) ≡ ((r', s'), ok tt)
      → firmware_write addr bytes (unlocked r, s) ≡ ((unlocked r', s'), ok tt)
  unfolding firmware_write hook_memory_write locked
  firmware_write-ok r r' s s' addr bytes inside handled = rw inside (rw handled refl)

  take_message-IsReceived :
      (r r' : RsCan c) (s s' : m.State) (found : List ℕ × List ℕ)
      → p.address_range ≡ get_regs_range
      → IsReceived c m e r r' s s' found
      → take_message (unlocked r, s) ≡ ((unlocked r', s'), ok found)
  unfolding take_message
  take_message-IsReceived r r' s s' found whole h =
      act-step _ _ (firmware_read-view r r s h.middle rfid 4 (rw whole refl) h.read_id h.seen_id) (
        act-step _ _
          (firmware_read-view r r h.middle s' rfdf 8 (rw whole refl) h.read_data h.seen_data)
          (act-step _ _ (firmware_write-ok r r' s' s' rfpctr (0xff ∷ []) (rw whole refl) h.dropped)
            refl))

  module _ (laws : MemoryLaws m) (bytes : ByteOrderLaws e) (addresses : AddressLaws m) where
    take_messages-Matches :
        (fs : List c.CanFrame) (messages : List (ℕ × ℕ)) (s : m.State)
        → p.address_range ≡ get_regs_range
        → Matches c m e fs messages
        → IsMapped c m e s
        → (s' : m.State) × (take_messages (length messages) (unlocked (waiting c fs), s)
            ≡ ((unlocked (waiting c []), s'), ok (shown_all c m e messages)))
    unfolding take_messages
    take_messages-Matches [] [] s whole h mapped = (s, refl)
    take_messages-Matches [] (x ∷ messages) s whole h mapped = absurd h
    take_messages-Matches (f ∷ fs) [] s whole h mapped = absurd h
    take_messages-Matches (f ∷ fs) ((can_id, word) ∷ messages) s whole (i, d, h) mapped =
        let (s', received, mapped') =
          receive-IsReceived c m e laws bytes addresses f fs can_id word s i d mapped in
        let taken =
          take_message-IsReceived (waiting c (f ∷ fs)) (waiting c fs) s s' _ whole received in
        let (s'', others) = take_messages-Matches fs messages s' whole h mapped' in
        (s'', act-step _ _ taken (act-step _ _ others refl))

module _ (c : Socketcan) (m : Machine) (e : ByteOrder) (laws : MemoryLaws m)
    (bytes : ByteOrderLaws e) (addresses : AddressLaws m) (frames : FrameLaws c) where
  IsMapped-IsInitial :
      (s s' : m.State) → IsMapped c m e s → IsInitial c m e laws bytes s s' → IsMapped c m e s'
  IsMapped-IsInitial s s' mapped initial = record {
    old_id = mapped.old_id;
    mapped_id = initial.above rfid 4 (omega arith) ∙ mapped.mapped_id;
    old_data = mapped.old_data;
    mapped_data = initial.above rfdf 8 (omega arith) ∙ mapped.mapped_data;
  }

  built :
      (r : RsCan c) (s s₀ : m.State)
      → init c m e (r, s) ≡ ((r, s₀), ok tt)
      → new (handler c m e) r s get_regs_range
        ≡ ok (record { peripheral_in = r; range_in = get_regs_range }, s₀)
  unfolding new
  built r s s₀ ready = rw (ready, new) (rw ready refl)

  -- From the harness to the firmware: a polling peripheral is built over the controller's registers
  -- around a controller in queued mode; of the messages that are enqueued through the shared handle, with
  -- ids of up to 29 bits, the firmware's accesses find through the hooks, for all and in order, the data
  -- and an id of up to 11 bits, but of a longer id only the constant 0x8000000; and then the queue is empty
  -- and the mutex sound.
  pub received_through_hooks :
      (messages : List (ℕ × ℕ)) (s : m.State)
      → AreIds messages
      → IsMapped c m e s
      → HasStatus c m e s
      → (b : MemoryPollingPeripheralBuilder (RsCan c)) × (s₀ s' : m.State) × (r : RsCan c) × (new
            (handler c m e)
            (new_queued c)
            s
            get_regs_range
          ≡ ok (b, s₀))
        × (enqueue_all c m e messages (build b).1.value ≡ (r, ok tt))
        × (take_messages c m e (build b).0 (length messages) (record (build b).1 { value = r }, s₀)
            ≡ (((build b).1, s'), ok (found_all c m e messages)))
  unfolding build new_queued get_reg_addr
  received_through_hooks messages s ids mapped has =
      let (s₀, ready, initial) =
        init-IsInitial c m e laws bytes (new_queued c) s refl refl refl has in
      let (fs, filled, match) = enqueue_all-Matches c m e messages [] [] frames bytes ids tt in
      let p : MemoryPollingPeripheral = record { address_range = get_regs_range } in
      let (s', taken) =
        take_messages-Matches c m e p laws bytes addresses fs messages s₀ refl match
          (IsMapped-IsInitial s s₀ mapped initial) in
      (
        record { peripheral_in = new_queued c; range_in = get_regs_range },
        s₀,
        s',
        waiting c fs,
        built (new_queued c) s s₀ ready,
        filled,
        rw (← shown_all-AreIds c m e messages ids) taken,
      )
