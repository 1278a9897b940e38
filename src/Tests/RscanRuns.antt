-- ===== src/Tests/RscanRuns.antt =====
-- The theorems on the RS-CAN controller at concrete inputs.
use fuguex_peripheral.Base.{
  ℕ, ◌+◌, ◌/◌, ◌%◌, ◌^◌, ◌≡◌, refl, arith, true, false, List, [], ◌∷◌, ok, err,
  unsupported_address_size, panic, some, none, if◌then◌else◌, ◌==◌,
}
use fuguex_peripheral.Polling.{MemoryPollingPeripheral, MemoryPollingPeripheralBuilder, new, build}
use fuguex_peripheral.Polling.Shared.{reading, accesses}
use fuguex_peripheral.Rscan.{RsCan, new_queued, get_regs_range, init}
use fuguex_peripheral.Rscan.Can.{Socketcan, FrameLaws}
use fuguex_peripheral.Rscan.Input.{handle_input, id_word}
use fuguex_peripheral.Rscan.Output.{handle_output}
use fuguex_peripheral.Rscan.Reception.{
  IsMapped, rfid, rfdf, enqueue_all, receive_all, found_all, received_in_order,
}
use fuguex_peripheral.Rscan.Handler.{handler}
use fuguex_peripheral.Rscan.Hooked.{take_messages, received_through_hooks}
use fuguex_peripheral.Rscan.Initial.{HasStatus, init_then_status}
use fuguex_peripheral.Rscan.Poisoned.{taking_id, empty_queue_poisons}
use fuguex_peripheral.Rscan.Sockets.{id_and_data_of_two_frames}
use fuguex_peripheral.Rscan.Unavailable.{reads_id, reads_data, reads_refused}
use fuguex_peripheral.Rscan.Transmission.{tmc, wired, transmit_panics}
use fuguex_peripheral.Rscan.Status.{rfsts}
use fuguex_peripheral.Tests.Flat.{
  Flat, flat, little, flat-MemoryLaws, flat-AddressLaws, little-ByteOrderLaws,
}

abbrev blank_state : Flat
blank_state = record { memory = λ a. 0; sp = 0x1000; sr = 0 }

-- Frames as pairs, and no sockets.
abbrev can : Socketcan
can = record {
  CanFrame = ℕ × List ℕ;
  new_frame = λ i bytes rtr failed. some (i, bytes);
  id = λ f. f.0;
  payload = λ f. f.1;
  Socket = Unit {0};
  open_socket = λ name. none;
  set_read_timeout = λ socket seconds. some socket;
  read_frame = λ socket. none;
  write_frame = λ socket frame. some socket;
}

can-FrameLaws : FrameLaws can
can-FrameLaws = record { new_frame_defined = λ i bytes small short. ((i, bytes), refl, refl, refl) }

blank-IsMapped : IsMapped can flat little blank_state
blank-IsMapped = record {
  old_id = 0 ∷ 0 ∷ 0 ∷ 0 ∷ [];
  mapped_id = refl;
  old_data = 0 ∷ 0 ∷ 0 ∷ 0 ∷ 0 ∷ 0 ∷ 0 ∷ 0 ∷ [];
  mapped_data = refl;
}

abbrev two_messages : List (ℕ × ℕ)
two_messages = (0x123, 0x1122334455667788) ∷ (0x1234, 7) ∷ []

received_in_order_example :
    (r : RsCan can) × (s' : Flat) × (enqueue_all can flat little two_messages (new_queued can)
      ≡ (r, ok tt))
    × (receive_all can flat little 2 (r, blank_state)
        ≡ ((new_queued can, s'), ok (found_all can flat little two_messages)))
received_in_order_example =
    received_in_order can flat little two_messages blank_state flat-MemoryLaws little-ByteOrderLaws
      flat-AddressLaws can-FrameLaws (omega arith, (omega arith, tt)) blank-IsMapped

transmit_panics_example :
    handle_output can flat little tmc (1 ∷ []) (wired can none "N/A" [] false, blank_state)
    ≡ ((wired can none "N/A" [] false, blank_state), panic)
transmit_panics_example =
    transmit_panics can flat little flat-MemoryLaws little-ByteOrderLaws none "N/A" [] false
      blank_state 1 [] refl

blank-HasStatus : HasStatus can flat little blank_state
blank-HasStatus = record {
  old_tmsts = 0 ∷ [];
  mapped_tmsts = refl;
  old_rfsts = 0 ∷ 0 ∷ 0 ∷ 0 ∷ [];
  mapped_rfsts = refl;
  old_gsts = 0 ∷ 0 ∷ 0 ∷ 0 ∷ [];
  mapped_gsts = refl;
}

received_through_hooks_example :
    (b : MemoryPollingPeripheralBuilder (RsCan can)) × (s₀ s' : Flat) × (r : RsCan can) × (new
        (handler can flat little)
        (new_queued can)
        blank_state
        get_regs_range
      ≡ ok (b, s₀))
    × (enqueue_all can flat little two_messages (build b).1.value ≡ (r, ok tt))
    × (take_messages can flat little (build b).0 2 (record (build b).1 { value = r }, s₀)
        ≡ (((build b).1, s'), ok (found_all can flat little two_messages)))
received_through_hooks_example =
    received_through_hooks can flat little flat-MemoryLaws little-ByteOrderLaws flat-AddressLaws
      can-FrameLaws two_messages blank_state (omega arith, (omega arith, tt)) blank-IsMapped
      blank-HasStatus

abbrev one_waiting : RsCan can
one_waiting = wired can none "N/A" ((1, []) ∷ []) false

init_then_status_example :
    (s' s'' : Flat) × (v : ℕ) × (init can flat little (one_waiting, blank_state)
      ≡ ((one_waiting, s'), ok tt))
    × (flat.view_values s' rfsts 4 ≡ some (little.write_u32 0))
    × (handle_input can flat little rfsts (one_waiting, s') ≡ ((one_waiting, s''), ok tt))
    × (flat.view_values s'' rfsts 4 ≡ some (little.write_u32 v))
    × (v / 2 ^ 8 % 2 ^ 8 ≡ 1)
    × (v % 2 ≡ (if 1 == 0 then 1 else 0))
init_then_status_example =
    init_then_status can flat little flat-MemoryLaws little-ByteOrderLaws none "N/A" ((1, []) ∷ [])
      false blank_state (omega arith) blank-HasStatus

-- Sockets that count the frames read, and number the frames by it.
abbrev numbered : Socketcan
numbered = record can {
  Socket = ℕ;
  open_socket = λ name. some 0;
  set_read_timeout = λ socket seconds. some socket;
  read_frame = λ socket. some ((socket, socket ∷ 0 ∷ 0 ∷ 0 ∷ 0 ∷ 0 ∷ 0 ∷ 0 ∷ []), socket + 1);
  write_frame = λ socket frame. some socket;
}

id_and_data_of_two_frames_example :
    (s₁ s₂ : Flat) × (handle_input numbered flat little rfid
        (wired numbered (some 5) "can0" [] true, blank_state)
      ≡ ((wired numbered (some 6) "can0" [] true, s₁), ok tt))
    × (handle_input numbered flat little rfdf (wired numbered (some 6) "can0" [] true, s₁)
        ≡ ((wired numbered (some 7) "can0" [] true, s₂), ok tt))
    × (flat.view_values s₂ rfid 4 ≡ some (little.write_u32 (id_word 5)))
    × (flat.view_values s₂ rfdf 8 ≡ some (little.write_u64 6))
id_and_data_of_two_frames_example =
    id_and_data_of_two_frames numbered flat little "can0" [] flat-MemoryLaws little-ByteOrderLaws
      flat-AddressLaws 5 6 7 (5, 5 ∷ 0 ∷ 0 ∷ 0 ∷ 0 ∷ 0 ∷ 0 ∷ 0 ∷ [])
      (6, 6 ∷ 0 ∷ 0 ∷ 0 ∷ 0 ∷ 0 ∷ 0 ∷ 0 ∷ []) blank_state
      (record { timed = 5; in_time = refl; arrives = refl })
      (record { timed = 6; in_time = refl; arrives = refl }) refl
      (record {
        old_id = 0 ∷ 0 ∷ 0 ∷ 0 ∷ [];
        mapped_id = refl;
        old_data = 0 ∷ 0 ∷ 0 ∷ 0 ∷ 0 ∷ 0 ∷ 0 ∷ 0 ∷ [];
        mapped_data = refl;
      })

abbrev over_registers : MemoryPollingPeripheral
over_registers = record { address_range = get_regs_range }

empty_queue_poisons_example :
    accesses
      (handler can flat little)
      over_registers
      (reading rfid 4 ∷ reading rfsts 4 ∷ reading 0x10 4 ∷ [])
      (record { value = wired can none "N/A" [] false; poisoned = false })
      blank_state
    ≡ (
      record { value = wired can none "N/A" [] false; poisoned = true },
      blank_state,
      panic ∷ panic ∷ ok tt ∷ [],
    )
empty_queue_poisons_example =
    empty_queue_poisons can flat little flat-AddressLaws over_registers blank_state (reading rfid 4)
      (reading rfsts 4 ∷ reading 0x10 4 ∷ []) refl (taking_id 4)

reads_refused_example :
    accesses
      (handler can flat little)
      over_registers
      (reading rfid 4 ∷ reading rfdf 8 ∷ reading rfid 4 ∷ [])
      (record { value = wired can none "can0" [] true; poisoned = false })
      blank_state
    ≡ (
      record { value = wired can none "can0" [] true; poisoned = false },
      blank_state,
      err (unsupported_address_size 0)
          ∷ err (unsupported_address_size 0)
          ∷ err (unsupported_address_size 0)
          ∷ [],
    )
reads_refused_example =
    reads_refused can flat little flat-AddressLaws over_registers "can0" [] refl
      (reading rfid 4 ∷ reading rfdf 8 ∷ reading rfid 4 ∷ []) blank_state refl
      (reads_id 4, (reads_data 8, (reads_id 4, tt)))
