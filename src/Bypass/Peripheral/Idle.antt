-- ===== src/Bypass/Peripheral/Idle.antt =====
-- The peripheral of src/bypass/dummy_peripheral.rs while it is not solving: what it leaves alone.
use Prim.Native.String.{String}
use fuguex_peripheral.Base.{
  ℕ, ◌+◌, ◌<◌, ◌≡◌, refl, inl, inr, arith, Bool, Bool-cases, true, false, not, ◌&&◌, List, [], ◌∷◌,
  Option, some, ok, ◌==◌, in_range,
}
use fuguex_peripheral.Timer.{u128_mod}
use fuguex_peripheral.Bypass.{
  Operand, PCodeOp, load, copy, store, c_branch, return_to, call, branch, i_branch, i_call, unary,
  binary, subpiece, skip, other, Symbolic, Reader, Format,
}
use fuguex_peripheral.Bypass.Peripheral.{World, Emulator, DummyPeripheral, load_in, load_each}
use fuguex_peripheral.Bypass.Peripheral.Hook.{watch, hook_operation_step}
use fuguex_peripheral.Bypass.Peripheral.Loops.{hook_operation_step_lem}
use fuguex_peripheral.Bypass.Peripheral.Polls.{follow_stopped}

abbrev pub is_outside : List (ℕ × ℕ) → ℕ → Bool
is_outside [] a = true
is_outside (range ∷ ranges) a = not (in_range range a) && is_outside ranges a

module _ (x : Symbolic) (fmt : Format) (m : Reader) (e : Emulator m)
    (iter : List (String × (x.SymExpr × ℕ)) → List (String × (x.SymExpr × ℕ)))
    (iter_results : List (ℕ × Option ℕ) → List (ℕ × Option ℕ)) (little checks : Bool) where
  -- The emulator knows the address of a load, outside the ranges, and of a store.
  abbrev pub IsQuiet : DummyPeripheral x fmt → World m → PCodeOp → Type 0
  IsQuiet p s (load source destination) =
      (a : ℕ) × (m.get_address s.state source ≡ some a) × (is_outside p.address_range_list a ≡ true)
  IsQuiet p s (store source destination) = (a : ℕ) × (m.get_address s.state destination ≡ some a)
  IsQuiet p s _ = Unit {0}

  load_each_outside :
      (ranges : List (ℕ × ℕ)) (p : DummyPeripheral x fmt) (s : World m) (a : ℕ) (d : Operand)
      → is_outside ranges a ≡ true
      → load_each x fmt m e little checks ranges p s a d ≡ ok (p, s)
  unfolding load_each load_in
  load_each_outside [] p s a d outside = refl
  load_each_outside (range ∷ ranges) p s a d outside =
      let here : in_range range a ≡ false = ground (arith, outside) in
      let there : is_outside ranges a ≡ true = ground (arith, outside) in
      rw here (load_each_outside ranges p s a d there)

  -- What the match on the operation leaves alone.
  abbrev IsLeft : DummyPeripheral x fmt → World m → PCodeOp → Type 0
  IsLeft p s op =
      (p' : DummyPeripheral x fmt) × (watch x fmt m e iter iter_results little checks p s op
        ≡ ok (p', s))
      × (p'.solving_started ≡ false)
      × (p'.pcode_counter ≡ p.pcode_counter)

  watch_store :
      (p : DummyPeripheral x fmt) (s : World m) (source d : Operand) (a : ℕ)
      → p.solving_started ≡ false
      → m.get_address s.state d ≡ some a
      → IsLeft p s (store source d)
  unfolding watch
  watch_store p s source d a idle at_destination =
      elim (Bool-cases (p.last_mem_read_event.read_address == a)) [
        | inl same ↦
            (record p { solving_started = false }, rw at_destination (rw same refl), refl, refl)
        | inr apart ↦ (p, rw at_destination (rw apart refl), idle, refl)
      ]

  watch_idle :
      (p : DummyPeripheral x fmt) (s : World m) (op : PCodeOp)
      → p.solving_started ≡ false
      → IsQuiet p s op
      → IsLeft p s op
  unfolding watch
  watch_idle p s (load source d) idle (a, at_source, outside) =
      (p, rw at_source (load_each_outside p.address_range_list p s a d outside), idle, refl)
  watch_idle p s (store source d) idle (a, at_destination) =
      watch_store p s source d a idle at_destination
  watch_idle p s (c_branch d condition) idle quiet = (p, rw idle refl, idle, refl)
  watch_idle p s (i_call d) idle quiet = (p, rw idle refl, idle, refl)
  watch_idle p s (return_to d) idle quiet = (p, rw idle refl, idle, refl)
  watch_idle p s (copy a d) idle quiet = (p, refl, idle, refl)
  watch_idle p s (call d) idle quiet = (p, refl, idle, refl)
  watch_idle p s (branch d) idle quiet = (p, refl, idle, refl)
  watch_idle p s (i_branch d) idle quiet = (p, refl, idle, refl)
  watch_idle p s (unary op d a) idle quiet = (p, refl, idle, refl)
  watch_idle p s (binary op d a b) idle quiet = (p, refl, idle, refl)
  watch_idle p s (subpiece d a n) idle quiet = (p, refl, idle, refl)
  watch_idle p s skip idle quiet = (p, refl, idle, refl)
  watch_idle p s other idle quiet = (p, refl, idle, refl)

  -- While the peripheral is not solving, no operation but a load from its ranges wakes it: where the
  -- emulator knows the addresses of loads and stores, the hook succeeds, leaves the emulator's state and
  -- the table of results as they are, and the peripheral is still not solving.
  pub idle_transparent :
      (p : DummyPeripheral x fmt) (s : World m) (op : PCodeOp)
      → p.solving_started ≡ false
      → IsQuiet p s op
      → p.pcode_counter + 1 < u128_mod
      → (p' : DummyPeripheral x fmt) × (hook_operation_step x fmt m e iter iter_results little
            checks p s op
          ≡ ok (p', s))
        × (p'.solving_started ≡ false)
  idle_transparent p s op idle quiet fits =
      let (p', watched, still, counted) = watch_idle p s op idle quiet in
      (
        record p' { pcode_counter = p'.pcode_counter + 1 },
        hook_operation_step_lem x fmt m e iter iter_results little checks p p' p' s s op watched
            (follow_stopped x fmt m e iter iter_results little checks p' s.state op still)
            (omega (arith, fits, counted)),
        still,
      )
