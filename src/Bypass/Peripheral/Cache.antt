-- ===== src/Bypass/Peripheral/Cache.antt =====
-- The table of results of src/bypass/dummy_peripheral.rs, which the clones of a peripheral share.
use Prim.Native.String.{String}
use fuguex_peripheral.Base.{
  ℕ, ◌+◌, ◌<◌, ◌≡◌, refl, ◌⊎◌, inl, inr, Bool, true, false, List, [], ◌∷◌, Option, some, none, ok,
  ◌==◌, if◌then◌else◌, lookup, insert, lookup-insert, in_range, take, eq→==,
}
use fuguex_peripheral.Timer.{u128_mod}
use fuguex_peripheral.Bypass.{Operand, size, load, Symbolic, Reader, Format}
use fuguex_peripheral.Bypass.Peripheral.{
  Emulator, World, SolvingResult, DummyPeripheral, cached, cached_slice, load_in, load_each,
}
use fuguex_peripheral.Bypass.Peripheral.Hook.{watch, hook_operation_step}
use fuguex_peripheral.Bypass.Peripheral.Loops.{hook_operation_step_lem}
use fuguex_peripheral.Bypass.Peripheral.Polls.{kept, result_of, follow_stopped}

-- The bytes that a load takes from the table: as many as it asks for in little endian, and none at all in
-- big endian or for a single byte.
abbrev pub bytes_taken : Bool → ℕ → List ℕ → List ℕ
bytes_taken little n bytes = if n == 1 then [] else if little then take n bytes else []

cached_slice_lem :
    (little : Bool) (n : ℕ) (bytes : List ℕ)
    → (n ≡ 1) ⊎ (n ≡ 4) ⊎ (n ≡ 8)
    → cached_slice little n bytes ≡ ok (bytes_taken little n bytes)
cached_slice_lem little n bytes (inl one) = rw one refl
cached_slice_lem little n bytes (inr (inl four)) = rw four refl
cached_slice_lem little n bytes (inr (inr eight)) = rw eight refl

lookup_kept :
    (b b' : Bool) (k a : ℕ) (r : SolvingResult) (table : List (ℕ × SolvingResult))
    → b ≡ true
    → b' ≡ true
    → k ≡ a
    → (if b' then lookup a (if b then insert k r table else table) else none) ≡ some r
lookup_kept b b' k a r table on on' same =
    rw on (rw on' (rw (lookup-insert k a r table) (rw (eq→== k a same) refl)))

module _ (x : Symbolic) (fmt : Format) (m : Reader) (e : Emulator m)
    (iter : List (String × (x.SymExpr × ℕ)) → List (String × (x.SymExpr × ℕ)))
    (iter_results : List (ℕ × Option ℕ) → List (ℕ × Option ℕ)) (little checks : Bool) where
  cached-kept :
      (p q : DummyPeripheral x fmt) (w : World m) (s' : m.State) (a v : ℕ)
      → p.solving_results_cache_enable ≡ true
      → q.solving_results_cache_enable ≡ true
      → p.last_mem_read_event.read_address ≡ a
      → cached x fmt m q (kept x fmt m e iter iter_results little checks p w s' v) a
        ≡ some (result_of x fmt m e iter iter_results little checks p v)
  cached-kept p q w s' a v on_p on_q here =
      lookup_kept p.solving_results_cache_enable q.solving_results_cache_enable
        p.last_mem_read_event.read_address a
        (result_of x fmt m e iter iter_results little checks p v) w.solving_results on_p on_q here

  load_each-cached :
      (ranges : List (ℕ × ℕ)) (q : DummyPeripheral x fmt) (w : World m) (s'' : m.State)
      (d : Operand) (range : ℕ × ℕ) (r : SolvingResult) (a c : ℕ)
      → ranges ≡ range ∷ []
      → in_range range a ≡ true
      → cached x fmt m q w a ≡ some r
      → (size d ≡ 1) ⊎ (size d ≡ 4) ⊎ (size d ≡ 8)
      → e.set_values w.state a (bytes_taken little (size d) (e.into_bytes little r.value))
        ≡ some s''
      → e.program_counter_value s'' ≡ some c
      → load_each x fmt m e little checks ranges q w a d ≡ ok (q, record w { state = s'' })
  unfolding load_each load_in
  load_each-cached ranges q w s'' d range r a c one inside found sized stored pc = rw one (
      rw inside (
        rw found (
          rw (cached_slice_lem little (size d) (e.into_bytes little r.value) sized)
            (rw stored (rw pc refl)))))

  -- A value that one clone has solved for reaches the others through the table: where both use it, a load
  -- of 1, 4 or 8 bytes of the polled address, in the only range, by a clone that is not solving writes to
  -- memory what `bytes_taken` takes of the value's bytes, if the emulator allows it, and starts no solving:
  -- in little endian the first 4 or 8 for a load of so many, and none for a load of one byte or in big
  -- endian.
  pub cached_value_loaded :
      (p q : DummyPeripheral x fmt) (w : World m) (s' s'' : m.State) (source d : Operand)
      (range : ℕ × ℕ) (a c v : ℕ)
      → p.solving_results_cache_enable ≡ true
      → p.last_mem_read_event.read_address ≡ a
      → q.solving_results_cache_enable ≡ true
      → q.solving_started ≡ false
      → q.pcode_counter + 1 < u128_mod
      → q.address_range_list ≡ range ∷ []
      → in_range range a ≡ true
      → (size d ≡ 1) ⊎ (size d ≡ 4) ⊎ (size d ≡ 8)
      → m.get_address s' source ≡ some a
      → e.set_values s' a (bytes_taken little (size d) (e.into_bytes little v)) ≡ some s''
      → e.program_counter_value s'' ≡ some c
      → hook_operation_step x fmt m e iter iter_results little checks q
          (kept x fmt m e iter iter_results little checks p w s' v)
          (load source d)
        ≡ ok (
          record q { pcode_counter = q.pcode_counter + 1 },
          kept x fmt m e iter iter_results little checks p w s'' v,
        )
  unfolding watch
  cached_value_loaded p q w s' s'' source d range a c v on_p here on_q idle fits ranges inside sized
        at_source stored pc =
      let found = cached-kept p q w s' a v on_p on_q here in
      hook_operation_step_lem x fmt m e iter iter_results little checks q q q _ _ (load source d)
        (rw at_source (
          load_each-cached q.address_range_list q _ s'' d range _ a c ranges inside found sized
            stored pc))
        (follow_stopped x fmt m e iter iter_results little checks q s'' _ idle) fits
