-- ===== src/Rscan/Reception.antt =====
-- Reception through src/v850/rscan.rs in queued mode: what firmware finds in RFID0 and RFDF00, message
-- by message.
use mathlib.Core.List.{append-nil, append_assoc}
use fuguex_peripheral.Base.{
  ℕ, zero, suc, ◌^◌, ◌<◌, ◌≡◌, refl, ap, ◌∙◌, inl, inr, arith, false, List, [], ◌∷◌, push, ◌++◌,
  some, none, ok, length, take, from_le_bytes,
}
use fuguex_peripheral.Base.Acts.{Act, ◌>>=◌, ◌>>◌, pure, act-step}
use fuguex_peripheral.Machine.{Machine, ByteOrder, MemoryLaws, ByteOrderLaws, AddressLaws}
use fuguex_peripheral.Rscan.{
  RsCan, Both, view, get_peripheral_regs, get_reg_addr, new_queued, enqueue_can_msg,
  dequeue_can_msg,
}
use fuguex_peripheral.Rscan.Can.{Socketcan, FrameLaws}
use fuguex_peripheral.Rscan.Ids.{shown_id, id_word_lem}
use fuguex_peripheral.Rscan.Input.{id_word, next_frame, input_rfid, input_rfdf, handle_input}
use fuguex_peripheral.Machine.Stores.{store}
use fuguex_peripheral.Rscan.Stores.{set-step}
use fuguex_peripheral.Rscan.Output.{handle_output, output_rfpctr}

abbrev pub rfid : ℕ
rfid = 0xffd00e00

abbrev pub rfdf : ℕ
rfdf = 0xffd00e08

abbrev pub rfpctr : ℕ
rfpctr = 0xffd000f8

take_all : (n : ℕ) (bs : List ℕ) → length bs ≡ n → take n bs ≡ bs
take_all zero [] h = refl
take_all zero (b ∷ bs) h = absurd (omega arith)
take_all (suc n) [] h = absurd (omega arith)
take_all (suc n) (b ∷ bs) h = ap (◌∷◌ b) (take_all n bs (omega arith))

-- Ids of 29 bits.
abbrev pub AreIds : List (ℕ × ℕ) → Type 0
AreIds [] = Unit {0}
AreIds ((can_id, word) ∷ messages) = (can_id < 2 ^ 29) × AreIds messages

-- The controller in queued mode with the messages `fs` waiting, as `new_queued` sets it up.
abbrev pub waiting : (c : Socketcan) → List c.CanFrame → RsCan c
waiting c fs = record {
  socket = none;
  interface = "N/A";
  regisiters = get_peripheral_regs;
  data_queue = fs;
  select_vcan_mode = false;
}

module _ (c : Socketcan) (m : Machine) (e : ByteOrder) where
  module _ (f : c.CanFrame) (fs : List c.CanFrame) (s s' : m.State) where
    rfid_read :
        m.set_values s rfid (e.write_u32 (id_word (c.id f))) ≡ some s'
        → handle_input c m e rfid (waiting c (f ∷ fs), s) ≡ ((waiting c (f ∷ fs), s'), ok tt)
    unfolding handle_input ◌>>=◌ input_rfid next_frame get_reg_addr
    rfid_read done =
        set-step c m e (waiting c (f ∷ fs)) s s' rfid (e.write_u32 (id_word (c.id f))) done

    rfdf_read :
        AddressLaws m
        → length (c.payload f) ≡ 8
        → m.set_values s rfdf (e.write_u64 (from_le_bytes (take 8 (c.payload f)))) ≡ some s'
        → handle_input c m e rfdf (waiting c (f ∷ fs), s) ≡ ((waiting c (f ∷ fs), s'), ok tt)
    unfolding handle_input ◌>>=◌ input_rfdf next_frame get_reg_addr
    rfdf_read addresses eight done =
        rw (addresses.add_exact 0xffd00e0c 4 (omega arith))
          (rw eight (set-step c m e (waiting c (f ∷ fs)) s s' rfdf _ done))

    rfpctr_write :
        (value : List ℕ)
        → handle_output c m e rfpctr value (waiting c (f ∷ fs), s) ≡ ((waiting c fs, s), ok tt)
    unfolding handle_output ◌>>=◌ output_rfpctr dequeue_can_msg get_reg_addr
    rfpctr_write value = refl

  -- The registers that hold a message.
  pub record IsMapped (s : m.State) : Type 0 where
    pub old_id : List ℕ
    pub mapped_id : m.view_values s rfid 4 ≡ some old_id
    pub old_data : List ℕ
    pub mapped_data : m.view_values s rfdf 8 ≡ some old_data

  -- The firmware takes a message: it reads the id and the data, and then writes RFPCTR0.
  unfoldable pub receive : Act (Both c m e) (List ℕ × List ℕ)
  receive = do
    handle_input c m e rfid
    id_bytes ← view c m e rfid 4
    handle_input c m e rfdf
    data_bytes ← view c m e rfdf 8
    handle_output c m e rfpctr (0xff ∷ [])
    pure (id_bytes, data_bytes)

  unfoldable pub receive_all : ℕ → Act (Both c m e) (List (List ℕ × List ℕ))
  receive_all zero = pure []
  receive_all (suc n) = do message ← receive; messages ← receive_all n; pure (message ∷ messages)

  -- The harness fills the queue.
  unfoldable pub enqueue_all : List (ℕ × ℕ) → Act (RsCan c) (Unit {0})
  enqueue_all [] = pure tt
  enqueue_all ((can_id, word) ∷ messages) = do enqueue_can_msg c e can_id word; enqueue_all messages

  -- What the source shows of a message.
  abbrev pub shown : ℕ × ℕ → List ℕ × List ℕ
  shown (can_id, word) =
      (e.write_u32 (id_word can_id), e.write_u64 (from_le_bytes (e.write_u64 word)))

  abbrev pub shown_all : List (ℕ × ℕ) → List (List ℕ × List ℕ)
  shown_all [] = []
  shown_all (message ∷ messages) = shown message ∷ shown_all messages

  -- What the firmware is to find: an id of up to 11 bits, or the constant for a longer one; and the eight
  -- bytes of the word, which the harness lays out in the machine's order and the source reads as little
  -- endian.
  abbrev pub found_all : List (ℕ × ℕ) → List (List ℕ × List ℕ)
  found_all [] = []
  found_all ((can_id, word) ∷ messages) =
      (e.write_u32 (shown_id can_id), e.write_u64 (from_le_bytes (e.write_u64 word)))
      ∷ found_all messages

  pub shown_all-AreIds :
      (messages : List (ℕ × ℕ)) → AreIds messages → shown_all messages ≡ found_all messages
  shown_all-AreIds [] ids = refl
  shown_all-AreIds ((can_id, word) ∷ messages) (small, ids) =
      rw (id_word_lem can_id (omega (arith, small))) (rw (shown_all-AreIds messages ids) refl)

  -- The frames that `enqueue_can_msg` makes of messages.
  abbrev pub Matches : List c.CanFrame → List (ℕ × ℕ) → Type 0
  Matches [] [] = Unit {0}
  Matches [] (message ∷ messages) = ⊥
  Matches (f ∷ fs) [] = ⊥
  Matches (f ∷ fs) ((can_id, word) ∷ messages) =
      (c.id f ≡ can_id) × (c.payload f ≡ e.write_u64 word) × Matches fs messages

  Matches-push :
      (fs : List c.CanFrame) (messages : List (ℕ × ℕ)) (f : c.CanFrame) (can_id word : ℕ)
      → Matches fs messages
      → c.id f ≡ can_id
      → c.payload f ≡ e.write_u64 word
      → Matches (push fs f) (push messages (can_id, word))
  Matches-push [] [] f can_id word h i p = (i, p, tt)
  Matches-push [] (x ∷ messages) f can_id word h i p = absurd h
  Matches-push (g ∷ fs) [] f can_id word h i p = absurd h
  Matches-push (g ∷ fs) (x ∷ messages) f can_id word (a, b, h) i p =
      (a, b, Matches-push fs messages f can_id word h i p)

  view-step :
      (r : RsCan c) (s : m.State) (addr n : ℕ) {bs : List ℕ}
      → m.view_values s addr n ≡ some bs
      → view c m e addr n (r, s) ≡ ((r, s), ok bs)
  view-step r s addr n seen = rw seen refl

  -- The three accesses that take a message, and what they find.
  pub record IsReceived (r r' : RsCan c) (s s' : m.State) (found : List ℕ × List ℕ) : Type 0 where
    pub middle : m.State
    pub read_id : handle_input c m e rfid (r, s) ≡ ((r, middle), ok tt)
    pub seen_id : m.view_values middle rfid 4 ≡ some found.0
    pub read_data : handle_input c m e rfdf (r, middle) ≡ ((r, s'), ok tt)
    pub seen_data : m.view_values s' rfdf 8 ≡ some found.1
    pub dropped : handle_output c m e rfpctr (0xff ∷ []) (r, s') ≡ ((r', s'), ok tt)

  receive_steps :
      (r r' : RsCan c) (s s' : m.State) (found : List ℕ × List ℕ)
      → IsReceived r r' s s' found
      → receive (r, s) ≡ ((r', s'), ok found)
  unfolding receive
  receive_steps r r' s s' found h = act-step _ _ h.read_id (
      act-step _ _ (view-step r h.middle rfid 4 h.seen_id) (
        act-step _ _ h.read_data
          (act-step _ _ (view-step r s' rfdf 8 h.seen_data) (act-step _ _ h.dropped refl))))

  module _ (laws : MemoryLaws m) (bytes : ByteOrderLaws e) (addresses : AddressLaws m) where
    pub receive-IsReceived :
        (f : c.CanFrame) (fs : List c.CanFrame) (can_id word : ℕ) (s : m.State)
        → c.id f ≡ can_id
        → c.payload f ≡ e.write_u64 word
        → IsMapped s
        → (s' : m.State) × IsReceived
            (waiting c (f ∷ fs))
            (waiting c fs)
            s
            s'
            (shown (can_id, word))
          × IsMapped s'
    receive-IsReceived f fs can_id word s same_id same_data mapped =
        let four : length (e.write_u32 (id_word (c.id f))) ≡ 4 = bytes.length_write_u32 _ in
        let eight : length (c.payload f) ≡ 8 = rw same_data (bytes.length_write_u64 word) in
        let whole : take 8 (c.payload f) ≡ e.write_u64 word =
          take_all 8 (c.payload f) eight ∙ same_data in
        let data_bytes = e.write_u64 (from_le_bytes (take 8 (c.payload f))) in
        let eight' : length data_bytes ≡ 8 = bytes.length_write_u64 _ in
        let (s₁, done, seen) =
          store m laws s rfid (e.write_u32 (id_word (c.id f))) 4 four mapped.mapped_id in
        let kept : m.view_values s₁ rfdf 8 ≡ m.view_values s rfdf 8 =
          laws.view_set_elsewhere s rfid rfdf 8 _ done (inr (omega (arith, four))) in
        let (s₂, done', seen') =
          store m laws s₁ rfdf data_bytes 8 eight' (kept ∙ mapped.mapped_data) in
        let still : m.view_values s₂ rfid 4 ≡ m.view_values s₁ rfid 4 =
          laws.view_set_elsewhere s₁ rfdf rfid 4 _ done' (inl (omega arith)) in
        let found : (e.write_u32 (id_word (c.id f)), data_bytes) ≡ shown (can_id, word) =
          rw (same_id, whole) refl in
        (
          s₂,
          record {
            middle = s₁;
            read_id = rfid_read f fs s s₁ done;
            seen_id = seen ∙ ap (λ p. some p.0) found;
            read_data = rfdf_read f fs s₁ s₂ addresses eight done';
            seen_data = seen' ∙ ap (λ p. some p.1) found;
            dropped = rfpctr_write f fs s₂ s₂ (0xff ∷ []);
          },
          record {
            old_id = e.write_u32 (id_word (c.id f));
            mapped_id = still ∙ seen;
            old_data = data_bytes;
            mapped_data = seen';
          },
        )

    receive_all-Matches :
        (fs : List c.CanFrame) (messages : List (ℕ × ℕ)) (s : m.State)
        → Matches fs messages
        → IsMapped s
        → (s' : m.State) × (receive_all (length messages) (waiting c fs, s)
            ≡ ((waiting c [], s'), ok (shown_all messages)))
    unfolding receive_all
    receive_all-Matches [] [] s h mapped = (s, refl)
    receive_all-Matches [] (x ∷ messages) s h mapped = absurd h
    receive_all-Matches (f ∷ fs) [] s h mapped = absurd h
    receive_all-Matches (f ∷ fs) ((can_id, word) ∷ messages) s (i, d, h) mapped =
        let (s', received, mapped') = receive-IsReceived f fs can_id word s i d mapped in
        let taken = receive_steps (waiting c (f ∷ fs)) (waiting c fs) s s' _ received in
        let (s'', others) = receive_all-Matches fs messages s' h mapped' in
        (s'', act-step _ _ taken (act-step _ _ others refl))

  pub enqueue_all-Matches :
      (messages done : List (ℕ × ℕ)) (fs : List c.CanFrame)
      → FrameLaws c
      → ByteOrderLaws e
      → AreIds messages
      → Matches fs done
      → (fs' : List c.CanFrame) × (enqueue_all messages (waiting c fs) ≡ (waiting c fs', ok tt))
        × Matches fs' (done ++ messages)
  unfolding enqueue_all
  enqueue_all-Matches [] done fs frames bytes ids h = (fs, refl, rw (append-nil done) h)
  enqueue_all-Matches ((can_id, word) ∷ messages) done fs frames bytes (small, ids) h =
      let (f, made, i, p) =
        frames.new_frame_defined can_id (e.write_u64 word) small
          (omega (arith, bytes.length_write_u64 word)) in
      let pushed = Matches-push fs done f can_id word h i p in
      let queued : enqueue_can_msg c e can_id word (waiting c fs) ≡ (waiting c (push fs f), ok tt) =
        unfold enqueue_can_msg in rw made refl in
      let (fs', rest, match) =
        enqueue_all-Matches messages (push done (can_id, word)) (push fs f) frames bytes ids
          pushed in
      (
        fs',
        act-step _ _ queued rest,
        rw (append_assoc done ((can_id, word) ∷ []) messages) at match,
      )

  -- The messages that the harness enqueues in queued mode, with ids of up to 29 bits, reach the firmware
  -- all and in their order: it finds the data in RFDF00 and RFDF10, and in RFID0 an id of up to 11 bits,
  -- but of a longer id only the constant 0x8000000; and then the queue is empty.
  pub received_in_order :
      (messages : List (ℕ × ℕ)) (s : m.State)
      → MemoryLaws m
      → ByteOrderLaws e
      → AddressLaws m
      → FrameLaws c
      → AreIds messages
      → IsMapped s
      → (r : RsCan c) × (s' : m.State) × (enqueue_all messages (new_queued c) ≡ (r, ok tt))
        × (receive_all (length messages) (r, s) ≡ ((new_queued c, s'), ok (found_all messages)))
  unfolding new_queued
  received_in_order messages s laws bytes addresses frames ids mapped =
      let (fs, filled, match) = enqueue_all-Matches messages [] [] frames bytes ids tt in
      let (s', taken) = receive_all-Matches laws bytes addresses fs messages s match mapped in
      (waiting c fs, s', filled, rw (← shown_all-AreIds messages ids) taken)
