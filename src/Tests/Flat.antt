-- ===== src/Tests/Flat.antt =====
-- A concrete emulator for the tests: a memory of bytes with every address mapped, a stack pointer and a
-- status register; and little-endian words.
use native.Mathlib.Nat.{pow-suc}
use fuguex_peripheral.Base.{
  ℕ, zero, suc, ◌+◌, ◌-◌, ◌*◌, ◌/◌, ◌%◌, ◌^◌, ◌≤◌, ◌<◌, ◌≡◌, refl, sym, ap, ◌∙◌, ◌⊎◌, inl, inr,
  arith, List, [], ◌∷◌, take, AllBytes, Option, some, none, ltb, ◌==◌, if◌then◌else◌, length, eq→==,
  ne→==, lt→ltb,
}
use fuguex_peripheral.Machine.{
  Machine, MemoryLaws, StackLaws, AddressLaws, ByteOrder, ByteOrderLaws, PrefixLaws, BigEndianLaws,
}

pub record Flat : Type 0 where
  pub memory : ℕ → ℕ
  pub sp : ℕ
  pub sr : ℕ

abbrev pub window : (ℕ → ℕ) → ℕ → ℕ → List ℕ
window f a zero = []
window f a (suc n) = f a ∷ window f (a + 1) n

abbrev pub overwrite : (ℕ → ℕ) → ℕ → List ℕ → ℕ → ℕ
overwrite f a [] q = f q
overwrite f a (b ∷ bs) q = if a == q then b else overwrite f (a + 1) bs q

abbrev pub flat : Machine
flat = record {
  State = Flat;
  view_values = λ s a n. some (window s.memory a n);
  set_values = λ s a bs. some (record s { memory = overwrite s.memory a bs });
  fill_values = λ s a bs. some (record s { memory = overwrite s.memory a bs });
  stack_pointer_value = λ s. some s.sp;
  set_stack_pointer_value = λ s a. some (record s { sp = a });
  Register = Unit {0};
  register_by_name = λ s name. some tt;
  get_operand = λ s r. some s.sr;
  address_to_u32 = λ a. if ltb a (2 ^ 32) then some a else none;
  address_sub = λ a b. a - b;
  address_add = λ a b. a + b;
}

length-window : (f : ℕ → ℕ) (a n : ℕ) → length (window f a n) ≡ n
length-window f a zero = refl
length-window f a (suc n) = ap suc (length-window f (a + 1) n)

window_agree :
    (f g : ℕ → ℕ) (a n : ℕ)
    → ((q : ℕ) → a ≤ q → q < a + n → f q ≡ g q)
    → window f a n ≡ window g a n
window_agree f g a zero h = refl
window_agree f g a (suc n) h =
    rw (h a (omega arith) (omega arith))
      (ap (◌∷◌ (g a)) (window_agree f g (a + 1) n (λ q k l. h q (omega arith) (omega arith))))

overwrite_elsewhere :
    (f : ℕ → ℕ) (a : ℕ) (bs : List ℕ) (q : ℕ)
    → (q < a) ⊎ (a + length bs ≤ q)
    → overwrite f a bs q ≡ f q
overwrite_elsewhere f a [] q h = refl
overwrite_elsewhere f a (b ∷ bs) q (inl h) =
    rw (ne→== a q (omega arith)) (overwrite_elsewhere f (a + 1) bs q (inl (omega arith)))
overwrite_elsewhere f a (b ∷ bs) q (inr h) =
    rw (ne→== a q (omega arith)) (overwrite_elsewhere f (a + 1) bs q (inr (omega arith)))

-- Two spans that are apart, and a place in the second.
apart : (a b n k q : ℕ) → b ≤ q → q < b + n → (b + n ≤ a) ⊎ (a + k ≤ b) → (q < a) ⊎ (a + k ≤ q)
apart a b n k q l u (inl h) = inl (omega arith)
apart a b n k q l u (inr h) = inr (omega arith)

window-overwrite : (f : ℕ → ℕ) (a : ℕ) (bs : List ℕ) → window (overwrite f a bs) a (length bs) ≡ bs
window-overwrite f a [] = refl
window-overwrite f a (b ∷ bs) = rw (eq→== a a refl) (
    ap (◌∷◌ b) (
      window_agree (overwrite f a (b ∷ bs)) (overwrite f (a + 1) bs) (a + 1) (length bs)
        (λ q k l. rw (ne→== a q (omega arith)))
      ∙ window-overwrite f (a + 1) bs))

-- The contents of `some` and the state of an update, taken out of the equation by `cc`.
window-length : (f : ℕ → ℕ) (a n : ℕ) {bs : List ℕ} → some (window f a n) ≡ some bs → length bs ≡ n
window-length f a n {bs = bs} e =
    let same : window f a n ≡ bs = cc e in rw (← same) (length-window f a n)

written :
    (s t : Flat) (a : ℕ) (cs : List ℕ)
    → flat.set_values s a cs ≡ some t
    → t.memory ≡ overwrite s.memory a cs
written s t a cs e = cc e

kept_sp :
    (s t : Flat) (a : ℕ) (cs : List ℕ)
    → flat.set_values s a cs ≡ some t
    → flat.stack_pointer_value t ≡ flat.stack_pointer_value s
kept_sp s t a cs e = cc e

moved_sp :
    (s t : Flat) (a : ℕ)
    → flat.set_stack_pointer_value s a ≡ some t
    → flat.stack_pointer_value t ≡ some a
moved_sp s t a e = cc e

kept_memory :
    (s t : Flat) (a b n : ℕ)
    → flat.set_stack_pointer_value s a ≡ some t
    → flat.view_values t b n ≡ flat.view_values s b n
kept_memory s t a b n e = cc e

pub flat-MemoryLaws : MemoryLaws flat
flat-MemoryLaws = record {
  length_view = λ s a n e. window-length s.memory a n e;
  set_mapped = λ s a cs e. (record s { memory = overwrite s.memory a cs }, refl);
  view_set = λ s a cs {t} e. rw (written s t a cs e) (ap some (window-overwrite s.memory a cs));
  view_set_elsewhere = λ s a b n cs {t} e h. rw (written s t a cs e) (
      ap some (
        window_agree (overwrite s.memory a cs) s.memory b n
          (λ q k l. overwrite_elsewhere s.memory a cs q (apart a b n (length cs) q k l h))));
}

pub flat-StackLaws : StackLaws flat
flat-StackLaws = record {
  fill_as_set = λ s a cs. refl;
  set_stack_pointer_defined = λ s a e. (record s { sp = a }, refl);
  stack_pointer_set = λ s a cs {t} e. kept_sp s t a cs e;
  set_stack_pointer = λ s a {t} e. moved_sp s t a e;
  view_set_stack_pointer = λ s a b n {t} e. kept_memory s t a b n e;
}

pub flat-AddressLaws : AddressLaws flat
flat-AddressLaws = record {
  to_u32_small = λ a h. rw (lt→ltb a (2 ^ 32) h) refl;
  sub_exact = λ a b h. refl;
  add_exact = λ a b h. refl;
}

-- Little-endian words; a read takes the first bytes of the slice, and each as a byte.
abbrev pub le_bytes : ℕ → ℕ → List ℕ
le_bytes zero v = []
le_bytes (suc n) v = v % 256 ∷ le_bytes n (v / 256)

abbrev pub le_word : ℕ → List ℕ → Option ℕ
le_word zero bs = some 0
le_word (suc n) [] = none
le_word (suc n) (b ∷ bs) = elim (le_word n bs) [ none ↦ none | some v ↦ some (b % 256 + 256 * v) ]

abbrev pub little : ByteOrder
little = record {
  read_u32 = le_word 4;
  write_u32 = le_bytes 4;
  read_u64 = le_word 8;
  write_u64 = le_bytes 8;
}

length-le_bytes : (n v : ℕ) → length (le_bytes n v) ≡ n
length-le_bytes zero v = refl
length-le_bytes (suc n) v = ap suc (length-le_bytes n (v / 256))

le_word-le_bytes : (v : ℕ) → v < 2 ^ 32 → le_word 4 (le_bytes 4 v) ≡ some v
le_word-le_bytes v h = ap some (omega arith)

digit : (b v p : ℕ) → v < p → b % 256 + 256 * v < 256 * p
digit b v p h = omega arith

le_word_defined :
    (n : ℕ) (bs : List ℕ) → n ≤ length bs → (v : ℕ) × (le_word n bs ≡ some v) × (v < 256 ^ n)
le_word_defined zero bs h = (0, refl, omega arith)
le_word_defined (suc n) [] h = absurd (omega arith)
le_word_defined (suc n) (b ∷ bs) h =
    let (v, e, l) = le_word_defined n bs (omega arith) in
    (b % 256 + 256 * v, rw e refl, omega (arith, pow-suc 256 n, digit b v (256 ^ n) l))

le_word_short : (n : ℕ) (bs : List ℕ) → length bs < n → le_word n bs ≡ none
le_word_short zero bs h = absurd (omega arith)
le_word_short (suc n) [] h = refl
le_word_short (suc n) (b ∷ bs) h = rw (le_word_short n bs (omega arith)) refl

pub little-ByteOrderLaws : ByteOrderLaws little
little-ByteOrderLaws = record {
  read_write_u32 = le_word-le_bytes;
  length_write_u32 = length-le_bytes 4;
  length_write_u64 = length-le_bytes 8;
  read_u32_defined = λ bs h. le_word_defined 4 bs h;
  read_u64_short = λ bs h. le_word_short 8 bs h;
}

take-window : (f : ℕ → ℕ) (a k n : ℕ) → k ≤ n → take k (window f a n) ≡ window f a k
take-window f a zero n h = refl
take-window f a (suc k) zero h = absurd (omega arith)
take-window f a (suc k) (suc n) h = ap (◌∷◌ (f a)) (take-window f (a + 1) k n (omega arith))

prefix_seen :
    (f : ℕ → ℕ) (a k n : ℕ) {bs : List ℕ}
    → k ≤ n
    → some (window f a n) ≡ some bs
    → some (window f a k) ≡ some (take k bs)
prefix_seen f a k n {bs = bs} h e =
    let same : window f a n ≡ bs = cc e in rw (← same) (ap some (sym (take-window f a k n h)))

pub flat-PrefixLaws : PrefixLaws flat
flat-PrefixLaws = record { view_prefix = λ s a k n h e. prefix_seen s.memory a k n h e }

-- Big-endian words of four bytes.
abbrev pub be_bytes : ℕ → List ℕ
be_bytes v = v / 2 ^ 24 % 256 ∷ v / 2 ^ 16 % 256 ∷ v / 2 ^ 8 % 256 ∷ v % 256 ∷ []

abbrev pub be_word : List ℕ → Option ℕ
be_word (a ∷ b ∷ c ∷ d ∷ bs) =
    some (a % 256 * 2 ^ 24 + b % 256 * 2 ^ 16 + c % 256 * 2 ^ 8 + d % 256)
be_word _ = none

abbrev pub big : ByteOrder
big = record little { read_u32 = be_word; write_u32 = be_bytes }

be_word-be_bytes : (v : ℕ) → v < 2 ^ 32 → be_word (be_bytes v) ≡ some v
be_word-be_bytes v h = ap some (omega arith)

be_word_defined : (bs : List ℕ) → 4 ≤ length bs → (v : ℕ) × (be_word bs ≡ some v) × (v < 2 ^ 32)
be_word_defined [] h = absurd (omega arith)
be_word_defined (a ∷ []) h = absurd (omega arith)
be_word_defined (a ∷ b ∷ []) h = absurd (omega arith)
be_word_defined (a ∷ b ∷ c ∷ []) h = absurd (omega arith)
be_word_defined (a ∷ b ∷ c ∷ d ∷ bs) h = (_, refl, omega arith)

pub big-ByteOrderLaws : ByteOrderLaws big
big-ByteOrderLaws = record {
  read_write_u32 = be_word-be_bytes;
  length_write_u32 = λ v. refl;
  length_write_u64 = length-le_bytes 8;
  read_u32_defined = be_word_defined;
  read_u64_short = λ bs h. le_word_short 8 bs h;
}

be_bytes-be_word :
    (bs : List ℕ) {v : ℕ} → length bs ≡ 4 → AllBytes bs → be_word bs ≡ some v → be_bytes v ≡ bs
be_bytes-be_word [] four small e = absurd (omega arith)
be_bytes-be_word (a ∷ []) four small e = absurd (omega arith)
be_bytes-be_word (a ∷ b ∷ []) four small e = absurd (omega arith)
be_bytes-be_word (a ∷ b ∷ c ∷ []) four small e = absurd (omega arith)
be_bytes-be_word (a ∷ b ∷ c ∷ d ∷ []) {v = v} four (sa, (sb, (sc, (sd, u)))) e =
    let word : a % 256 * 2 ^ 24 + b % 256 * 2 ^ 16 + c % 256 * 2 ^ 8 + d % 256 ≡ v = cc e in
    let one : v / 2 ^ 24 % 256 ≡ a = omega (arith, word) in
    let two : v / 2 ^ 16 % 256 ≡ b = omega (arith, word) in
    let three : v / 2 ^ 8 % 256 ≡ c = omega (arith, word) in
    let four : v % 256 ≡ d = omega (arith, word) in rw (one, two, three, four) refl
be_bytes-be_word (a ∷ b ∷ c ∷ d ∷ x ∷ bs) four small e = absurd (omega arith)

same_upper : (v w : ℕ) → v / 2 ^ 16 ≡ w / 2 ^ 16 → take 2 (be_bytes v) ≡ take 2 (be_bytes w)
same_upper v w h =
    let one : v / 2 ^ 24 % 256 ≡ w / 2 ^ 24 % 256 = omega (arith, h) in
    let two : v / 2 ^ 16 % 256 ≡ w / 2 ^ 16 % 256 = omega (arith, h) in rw (one, two) refl

pub big-BigEndianLaws : BigEndianLaws big
big-BigEndianLaws = record {
  write_read_u32 = be_bytes-be_word;
  upper_first = same_upper;
  write_bytes = λ v. (omega arith, (omega arith, (omega arith, (omega arith, tt))));
}
