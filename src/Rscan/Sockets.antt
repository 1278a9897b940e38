-- ===== src/Rscan/Sockets.antt =====
-- Reception through src/v850/rscan.rs in socket mode: the id and the data that the firmware finds.
use Prim.Native.String.{String}
use fuguex_peripheral.Base.{
  ◌≡◌, refl, ◌∙◌, inl, inr, arith, true, List, some, ok, length, take, from_le_bytes,
}
use fuguex_peripheral.Base.Acts.{◌>>=◌}
use fuguex_peripheral.Machine.{Machine, ByteOrder, MemoryLaws, ByteOrderLaws, AddressLaws}
use fuguex_peripheral.Rscan.{RsCan, connect, get_reg_addr}
use fuguex_peripheral.Rscan.Can.{Socketcan}
use fuguex_peripheral.Machine.Stores.{store}
use fuguex_peripheral.Rscan.Stores.{set-step}
use fuguex_peripheral.Rscan.Input.{
  id_word, read_socket, next_frame, input_rfid, input_rfdf, handle_input,
}
use fuguex_peripheral.Rscan.Reception.{rfid, rfdf, IsMapped}
use fuguex_peripheral.Rscan.Transmission.{wired}

module _ (c : Socketcan) (m : Machine) (e : ByteOrder) (interface : String)
    (queue : List c.CanFrame) where
  -- The controller with a socket that is open.
  abbrev pub listening : c.Socket → RsCan c
  listening socket = wired c (some socket) interface queue true

  -- The next frame of a socket, and the socket after it.
  pub record IsNext (socket : c.Socket) (f : c.CanFrame) (socket' : c.Socket) : Type 0 where
    pub timed : c.Socket
    pub in_time : c.set_read_timeout socket 1 ≡ some timed
    pub arrives : c.read_frame timed ≡ some (f, socket')

  module _ (socket socket' : c.Socket) (f : c.CanFrame) (next : IsNext socket f socket') where
    next_frame-IsNext :
        (s : m.State) → next_frame c m e (listening socket, s) ≡ ((listening socket', s), ok f)
    unfolding next_frame read_socket ◌>>=◌ connect
    next_frame-IsNext s = rw next.in_time (rw next.arrives refl)

    rfid_read :
        (s s' : m.State)
        → m.set_values s rfid (e.write_u32 (id_word (c.id f))) ≡ some s'
        → handle_input c m e rfid (listening socket, s) ≡ ((listening socket', s'), ok tt)
    unfolding handle_input input_rfid get_reg_addr ◌>>=◌
    rfid_read s s' done =
        rw (next_frame-IsNext s) (set-step c m e (listening socket') s s' rfid _ done)

    rfdf_read :
        (s s' : m.State)
        → AddressLaws m
        → length (c.payload f) ≡ 8
        → m.set_values s rfdf (e.write_u64 (from_le_bytes (take 8 (c.payload f)))) ≡ some s'
        → handle_input c m e rfdf (listening socket, s) ≡ ((listening socket', s'), ok tt)
    unfolding handle_input input_rfdf get_reg_addr ◌>>=◌
    rfdf_read s s' addresses eight done =
        rw (addresses.add_exact 0xffd00e0c 4 (omega arith)) (
          rw (next_frame-IsNext s) (rw eight (set-step c m e (listening socket') s s' rfdf _ done)))

  -- In socket mode a read of RFID0 takes a frame from the socket and a read of RFDF00 takes the next one:
  -- the firmware that reads the id and then the data finds those of two frames, where the second has eight
  -- bytes. The queue plays no part.
  pub id_and_data_of_two_frames :
      MemoryLaws m
      → ByteOrderLaws e
      → AddressLaws m
      → (k k₁ k₂ : c.Socket) (f₁ f₂ : c.CanFrame) (s : m.State) → IsNext k f₁ k₁
      → IsNext k₁ f₂ k₂
      → length (c.payload f₂) ≡ 8
      → IsMapped c m e s
      → (s₁ s₂ : m.State) × (handle_input c m e rfid (listening k, s) ≡ ((listening k₁, s₁), ok tt))
        × (handle_input c m e rfdf (listening k₁, s₁) ≡ ((listening k₂, s₂), ok tt))
        × (m.view_values s₂ rfid 4 ≡ some (e.write_u32 (id_word (c.id f₁))))
        × (m.view_values s₂ rfdf 8 ≡ some (e.write_u64 (from_le_bytes (take 8 (c.payload f₂)))))
  id_and_data_of_two_frames laws bytes addresses k k₁ k₂ f₁ f₂ s one two eight mapped =
      let id_bytes = e.write_u32 (id_word (c.id f₁)) in
      let data_bytes = e.write_u64 (from_le_bytes (take 8 (c.payload f₂))) in
      let four : length id_bytes ≡ 4 = bytes.length_write_u32 _ in
      let eight' : length data_bytes ≡ 8 = bytes.length_write_u64 _ in
      let (s₁, done, seen) = store m laws s rfid id_bytes 4 four mapped.mapped_id in
      let kept : m.view_values s₁ rfdf 8 ≡ m.view_values s rfdf 8 =
        laws.view_set_elsewhere s rfid rfdf 8 id_bytes done (inr (omega (arith, four))) in
      let (s₂, done', seen') =
        store m laws s₁ rfdf data_bytes 8 eight' (kept ∙ mapped.mapped_data) in
      let still : m.view_values s₂ rfid 4 ≡ m.view_values s₁ rfid 4 =
        laws.view_set_elsewhere s₁ rfdf rfid 4 data_bytes done' (inl (omega arith)) in
      (
        s₁,
        s₂,
        rfid_read k k₁ f₁ one s s₁ done,
        rfdf_read k₁ k₂ f₂ two s₁ s₂ addresses eight done',
        still ∙ seen,
        seen',
      )
