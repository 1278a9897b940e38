-- ===== src/Rscan/Status.antt =====
-- The status of the receive FIFO in src/v850/rscan.rs: the register RFSTS0, as `init` leaves it and as a
-- read of it shows it.
use native.Mathlib.Decide.{dec_lt}
use Prim.Native.String.{String}
use fuguex_peripheral.Base.{
  ℕ, zero, suc, ◌+◌, ◌-◌, ◌*◌, ◌/◌, ◌%◌, ◌^◌, ◌<◌, ◌≤◌, ◌≡◌, refl, ap, sym, ◌∙◌, arith, Bool, List,
  Option, some, ok, panic, length, bit_and, bit_or, lt→ltb, ge→ltb, ne→==, ◌==◌, if◌then◌else◌,
}
use fuguex_peripheral.Base.Bits.{
  test_bit, test_bit-zero, test_bit-bit_and, test_bit-bit_or, bits_ext,
}
use fuguex_peripheral.Base.Acts.{◌>>=◌}
use fuguex_peripheral.Machine.{Machine, ByteOrder, MemoryLaws, ByteOrderLaws}
use fuguex_peripheral.Timer.Mask.Words.{test_bit_low, test_bit_high, test_bit_upper}
use fuguex_peripheral.Rscan.{RsCan, set, get_reg_addr}
use fuguex_peripheral.Rscan.Can.{Socketcan}
use fuguex_peripheral.Rscan.Input.{unread, handle_input, input_rfsts}
use fuguex_peripheral.Machine.Stores.{store}
use fuguex_peripheral.Rscan.Transmission.{wired}

abbrev pub rfsts : ℕ
rfsts = 0xffd000d8

-- A byte of a word, bit by bit.
test_bit-byte : (v i : ℕ) → i < 8 → test_bit (v / 2 ^ 8 % 2 ^ 8) i ≡ test_bit v (i + 8)
test_bit-byte v i h =
    sym (test_bit_low 8 (v / 2 ^ 8 / 2 ^ 8) (v / 2 ^ 8 % 2 ^ 8) i h)
    ∙ ap (λ t. test_bit t i) {y = v / 2 ^ 8} (omega arith)
    ∙ ap (test_bit (v / 2 ^ 8)) {x = i} {y = i + 8 - 8} (omega arith)
    ∙ sym (test_bit_upper 8 (v / 2 ^ 8) (v % 2 ^ 8) (i + 8) (omega arith) (omega arith))
    ∙ ap (λ t. test_bit t (i + 8)) {y = v} (omega arith)

-- The mask that keeps the other bits has none in the second byte.
mask_clear : (i : ℕ) → i < 8 → test_bit 0xffff00fe (i + 8) ≡ 0
mask_clear i h =
    test_bit_low 16 0xffff 0xfe (i + 8) (omega arith)
    ∙ test_bit_high 8 0xfe (i + 8) (omega arith) (omega arith)

count_shifted : (n i : ℕ) → test_bit (n * 2 ^ 8) (i + 8) ≡ test_bit n i
count_shifted n i =
    ap (λ t. test_bit t (i + 8)) {x = n * 2 ^ 8} {y = n * 2 ^ 8 + 0} (omega arith)
    ∙ test_bit_upper 8 n 0 (i + 8) (omega arith) (omega arith)
    ∙ ap (test_bit n) {x = i + 8 - 8} {y = i} (omega arith)

counted_byte :
    (n word : ℕ) → n < 256 → bit_or (bit_and word 0xffff00fe) (n * 2 ^ 8) / 2 ^ 8 % 2 ^ 8 ≡ n
counted_byte n word h = bits_ext _ n λ i. elim (dec_lt i 8) [
  | yes low ↦
      test_bit-byte (bit_or (bit_and word 0xffff00fe) (n * 2 ^ 8)) i low
      ∙ omega (
        arith,
        test_bit-bit_or (bit_and word 0xffff00fe) (n * 2 ^ 8) (i + 8),
        test_bit-bit_and word 0xffff00fe (i + 8),
        mask_clear i low,
        count_shifted n i,
      )
  | no high ↦
      test_bit_high 8 _ i (omega arith) (omega arith)
      ∙ sym (test_bit_high 8 n i (omega arith) (omega arith))
]

counted_lowest : (n word : ℕ) → bit_or (bit_and word 0xffff00fe) (n * 2 ^ 8) % 2 ≡ 0
counted_lowest n word = omega (
  arith,
  test_bit-zero (bit_or (bit_and word 0xffff00fe) (n * 2 ^ 8)),
  test_bit-bit_or (bit_and word 0xffff00fe) (n * 2 ^ 8) 0,
  test_bit-bit_and word 0xffff00fe 0,
  test_bit-zero 0xffff00fe,
  test_bit-zero (n * 2 ^ 8),
)

-- RFMC holds the count, and RFEMP whether it is zero.
unread_lem :
    (n word : ℕ)
    → n < 256
    → (unread n word / 2 ^ 8 % 2 ^ 8 ≡ n) × (unread n word % 2 ≡ (if n == 0 then 1 else 0))
unread_lem zero word h = (refl, refl)
unread_lem (suc n) word h = (
  rw (lt→ltb 0 (suc n) (omega arith)) (counted_byte (suc n) word h),
  rw (lt→ltb 0 (suc n) (omega arith))
      (rw (ne→== (suc n) 0 (omega arith)) (counted_lowest (suc n) word)),
)

module _ (c : Socketcan) (m : Machine) (e : ByteOrder) (laws : MemoryLaws m)
    (bytes : ByteOrderLaws e) (socket : Option c.Socket) (interface : String)
    (frames : List c.CanFrame) (mode : Bool) where
  abbrev here : RsCan c
  here = wired c socket interface frames mode

  rfsts_steps :
      (s s' : m.State) {old seen : List ℕ} {word : ℕ}
      → length frames < 256
      → m.view_values s rfsts 4 ≡ some old
      → e.read_u32 old ≡ some word
      → m.set_values s rfsts (e.write_u32 (unread (length frames) word)) ≡ some s'
      → m.view_values s' rfsts 4 ≡ some seen
      → input_rfsts c m e rfsts rfsts (here, s) ≡ ((here, s'), ok tt)
  unfolding input_rfsts ◌>>=◌
  rfsts_steps s s' few mapped read done again =
      rw (lt→ltb _ 256 few) (rw mapped (rw read (rw (done, set) (rw again refl))))

  rfsts_input :
      (s : m.State) → handle_input c m e rfsts (here, s) ≡ input_rfsts c m e rfsts rfsts (here, s)
  unfolding handle_input ◌>>=◌ get_reg_addr
  rfsts_input s = refl

  -- Where at most 255 messages wait, a read of RFSTS0 leaves there a word whose second byte is their
  -- number, and whose lowest bit says whether there is none.
  pub rfsts_shows_count :
      (s : m.State) (word : ℕ) {old : List ℕ}
      → length frames < 256
      → m.view_values s rfsts 4 ≡ some old
      → e.read_u32 old ≡ some word
      → (s' : m.State) × (v : ℕ) × (handle_input c m e rfsts (here, s) ≡ ((here, s'), ok tt))
        × (m.view_values s' rfsts 4 ≡ some (e.write_u32 v))
        × (v / 2 ^ 8 % 2 ^ 8 ≡ length frames)
        × (v % 2 ≡ (if length frames == 0 then 1 else 0))
  rfsts_shows_count s word {old = old} few mapped read =
      let v = unread (length frames) word in
      let four : length (e.write_u32 v) ≡ 4 = bytes.length_write_u32 v in
      let (s', done, seen) = store m laws s rfsts (e.write_u32 v) 4 four mapped in
      let (count, empty) = unread_lem (length frames) word few in
      (s', v, rfsts_input s ∙ rfsts_steps s s' few mapped read done seen, seen, count, empty)

  -- With more messages waiting, a read of RFSTS0 panics.
  rfsts_too_many :
      (s : m.State) → 256 ≤ length frames → handle_input c m e rfsts (here, s) ≡ ((here, s), panic)
  unfolding input_rfsts ◌>>=◌
  rfsts_too_many s many = rfsts_input s ∙ rw (ge→ltb _ 256 many) refl
