-- ===== src/Timer/Order/Commute.antt =====
-- Functions under masks that are apart commute, so any order of a register's functions gives the
-- same word.
use mathlib.Core.Logic.{∥∥₁_elim}
use mathlib.Core.List.{Mem, Permᴰ, Pairwise, Pairwise-cons, mem-cons_self, mem-cons_of_mem}
use mathlib.Core.List.Perm
use native.Mathlib.Nat.{ℕ_set}
use native.Mathlib.Decide.{dec_lt}
use fuguex_peripheral.Base.{
  ℕ, ◌^◌, ◌<◌, ◌≡◌, refl, sym, ap, ◌∙◌, arith, ◌∷◌, Perm, Outcome, ok, panic, err, ◌>>=◌, bit_and,
  some, lookup, Option-cases, inl, inr, length,
}
use fuguex_peripheral.Base.Bits.{test_bit, test_bit-bit_and, bits_ext}
use fuguex_peripheral.Machine.{Machine, ByteOrder, MemoryLaws, ByteOrderLaws}
use fuguex_peripheral.Timer.{CompareMatchTimer, Functions, FunName}
use fuguex_peripheral.Timer.Mask.Words.{test_bit_high, test_bit-zero_word}
use fuguex_peripheral.Timer.Registers.{read_function, read_functions, handle_reg_read}
use fuguex_peripheral.Timer.Order.Patch.{IsPatched, Acts, panics, patches, read_function-Acts}

-- Patches under masks with no common bit, made in either order.
patch_comm :
    (a b : ℕ) {f g : ℕ → ℕ} {val p q r s : ℕ}
    → bit_and a b ≡ 0
    → IsPatched a f val p
    → IsPatched b g p q
    → IsPatched b g val r
    → IsPatched a f r s
    → q ≡ s
patch_comm a b {q = q} {s = s} apart pa pb pc pd = bits_ext q s λ i.
    let no_common : test_bit (bit_and a b) i ≡ 0 = rw apart (test_bit-zero_word i) in
    elim (dec_lt i 32) [
      | yes h ↦
          ground (
            arith,
            pa.bit i h,
            pb.bit i h,
            pc.bit i h,
            pd.bit i h,
            test_bit-bit_and a b i,
            no_common,
          )
      | no h ↦
          test_bit_high 32 q i pb.fits (omega arith)
          ∙ sym (test_bit_high 32 s i pd.fits (omega arith))
    ]

Acts-comm :
    (a b : ℕ) {f g : ℕ → Outcome ℕ} (val : ℕ)
    → bit_and a b ≡ 0
    → val < 2 ^ 32
    → Acts a f
    → Acts b g
    → (f val >>= g) ≡ (g val >>= f)
Acts-comm a b val apart h (panics p) (panics q) = rw (p val, q val)
Acts-comm a b val apart h (panics p) (patches bits q) =
    let (r, e, patched) = q val h in rw (p val, e) (sym (p r))
Acts-comm a b val apart h (patches bits p) (panics q) =
    let (r, e, patched) = p val h in rw (q val, e) (q r)
Acts-comm a b val apart h (patches bits p) (patches bits' q) =
    let (r, e, patched) = p val h in
    let (s, d, patched') = q val h in
    let (r', e', again) = q r patched.fits in
    let (s', d', again') = p s patched'.fits in
    rw (e, d) (e' ∙ ap ok (patch_comm a b apart patched again patched' again') ∙ sym d')

bit_and_comm : (a b : ℕ) → bit_and a b ≡ bit_and b a
bit_and_comm a b =
    bits_ext (bit_and a b) (bit_and b a)
      λ i. omega (arith, test_bit-bit_and a b i, test_bit-bit_and b a i)

-- What one function makes of a word below 2 ^ 32 is again below it.
pub Acts-lt :
    (a : ℕ) {f : ℕ → Outcome ℕ} (val r : ℕ) → val < 2 ^ 32 → Acts a f → f val ≡ ok r → r < 2 ^ 32
Acts-lt a val r h (panics p) e = cc (p val)
Acts-lt a val r h (patches bits p) e =
    let (s, d, patched) = p val h in let same : s ≡ r = cc in rw (← same) patched.fits

-- The masks of a register's functions: words of 32 bits, of which no two share a bit.
abbrev pub Apart : ℕ × FunName → ℕ × FunName → Type 0
Apart x y = bit_and x.0 y.0 ≡ 0

pub record IsApart (fs : Functions) : Type 0 where
  pub fit : (x : ℕ × FunName) → Mem x fs → x.0 < 2 ^ 32
  pub apart : Pairwise Apart fs

Apart-symm : (x y : ℕ × FunName) → Apart x y → Apart y x
Apart-symm x y h = bit_and_comm y.0 x.0 ∙ h

IsApart-tail : {x : ℕ × FunName} {fs : Functions} → IsApart (x ∷ fs) → IsApart fs
IsApart-tail h = record {
  fit = λ y m. h.fit y (mem-cons_of_mem _ m);
  apart = (Pairwise-cons.0 h.apart).1;
}

IsApart-perm : {fs gs : Functions} → Perm fs gs → IsApart fs → IsApart gs
IsApart-perm p h = record {
  fit = λ x m. h.fit x ((Perm.mem_iff p).1 m);
  apart = Perm.pairwise (λ _ _. ℕ_set _ _) Apart-symm p h.apart;
}

>>=_congr :
    {f g : ℕ → Outcome ℕ} (m : Outcome ℕ) → ((r : ℕ) → m ≡ ok r → f r ≡ g r) → (m >>= f) ≡ (m >>= g)
>>=_congr (ok r) h = h r refl
>>=_congr (err e) h = refl
>>=_congr panic h = refl

>>=_assoc : (m : Outcome ℕ) (f g : ℕ → Outcome ℕ) → (m >>= λ r. f r >>= g) ≡ ((m >>= f) >>= g)
>>=_assoc (ok r) f g = refl
>>=_assoc (err e) f g = refl
>>=_assoc panic f g = refl

module _ (t : CompareMatchTimer) where
  abbrev act : ℕ × FunName → ℕ → Outcome ℕ
  act x = read_function t x.0 x.1

  read_functions-cons :
      (x : ℕ × FunName) (fs : Functions) (val : ℕ)
      → read_functions t (x ∷ fs) val ≡ (act x val >>= read_functions t fs)
  unfolding read_functions
  read_functions-cons (mask, fun) fs val = refl

  read_functions-cons_cons :
      (x y : ℕ × FunName) (fs : Functions) (val : ℕ)
      → read_functions t (x ∷ y ∷ fs) val ≡ ((act x val >>= act y) >>= read_functions t fs)
  read_functions-cons_cons x y fs val =
      read_functions-cons x (y ∷ fs) val
      ∙ >>=_congr (act x val) (λ r k. read_functions-cons y fs r)
      ∙ >>=_assoc (act x val) (act y) (read_functions t fs)

  read_functions-perm :
      {fs gs : Functions} (val : ℕ)
      → val < 2 ^ 32
      → Permᴰ fs gs
      → IsApart fs
      → read_functions t fs val ≡ read_functions t gs val
  read_functions-perm val h (Permᴰ.nil) a = refl
  read_functions-perm val h (Permᴰ.cons {a = x} {b = y} {l₁ = fs} {l₂ = gs} e p) a =
      let fits : x.0 < 2 ^ 32 = a.fit x mem-cons_self in
      rw (← e, read_functions-cons x fs val, read_functions-cons x gs val)
        (>>=_congr (act x val) λ r k.
          read_functions-perm r (Acts-lt x.0 val r h (read_function-Acts x.0 fits t x.1) k) p
            (IsApart-tail a))
  read_functions-perm val h (Permᴰ.swap {a = x} {b = y} {l = l} e d) a =
      let fits : x.0 < 2 ^ 32 = a.fit x mem-cons_self in
      let fits' : y.0 < 2 ^ 32 = a.fit y (mem-cons_of_mem _ mem-cons_self) in
      let apart : Apart x y = (Pairwise-cons.0 a.apart).0 y mem-cons_self in
      rw (← e, ← d, read_functions-cons_cons x y l val, read_functions-cons_cons y x l val)
        (ap (λ o. o >>= read_functions t l)
          (Acts-comm x.0 y.0 val apart h (read_function-Acts x.0 fits t x.1)
            (read_function-Acts y.0 fits' t y.1)))
  read_functions-perm val h (Permᴰ.trans p q) a =
      read_functions-perm val h p a ∙ read_functions-perm val h q (IsApart-perm ∣ p ∣₁ a)

Outcome-set : IsSet (Outcome ℕ)
Outcome-set = hlevel ℕ_set

read_functions_order :
    (t : CompareMatchTimer) (fs gs : Functions) (val : ℕ)
    → val < 2 ^ 32
    → Perm fs gs
    → IsApart fs
    → read_functions t fs val ≡ read_functions t gs val
read_functions_order t fs gs val h p a =
    ∥∥₁_elim p (Outcome-set _ _) (λ q. read_functions-perm t val h q a)

module _ (m : Machine) (e : ByteOrder) (laws : MemoryLaws m) (bytes : ByteOrderLaws e) where
  -- What a read of a register returns, and what it leaves in memory, is the same for any two orders in
  -- which its functions are visited.
  pub handle_reg_read_order :
      (iter iter' : Functions → Functions) (t : CompareMatchTimer) (s : m.State) (addr : ℕ)
      {fs : Functions}
      → lookup addr t.reg_read_map ≡ some fs
      → IsApart fs
      → Perm fs (iter fs)
      → Perm fs (iter' fs)
      → handle_reg_read iter m e t s addr ≡ handle_reg_read iter' m e t s addr
  unfolding handle_reg_read
  handle_reg_read_order iter iter' t s addr found apart p p' =
      elim (Option-cases (m.view_values s addr 4)) [
        | inl unmapped ↦ rw (found, unmapped)
        | inr (bs, seen) ↦
            let four : length bs ≡ 4 = laws.length_view s addr 4 seen in
            let (v, word, fits) = bytes.read_u32_defined bs (omega arith) in
            let same =
              read_functions_order t _ _ v fits (Perm.trans (Perm.symm p) p')
                (IsApart-perm p apart) in
            rw (found, seen) (rw word (rw same))
      ]
