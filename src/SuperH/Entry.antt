-- ===== src/SuperH/Entry.antt =====
-- Entry into and return from the interrupt routines of src/SuperH/compare_match_timer.rs.
use fuguex_peripheral.Base.{
  ℕ, ◌^◌, ◌<◌, Bool-cases, ◌≡◌, refl, ap, sym, ◌∙◌, ◌⊎◌, inl, inr, arith, Bool, true, false, ◌&&◌,
  ◌||◌, List, some, ok, if◌then◌else◌,
}
use fuguex_peripheral.Machine.{
  Machine, ByteOrder, MemoryLaws, StackLaws, AddressLaws, ByteOrderLaws,
}
use fuguex_peripheral.Timer.Methods
use fuguex_peripheral.Interrupt.{
  Interrupt, vector, get_routine_address, set_triggered, unchanged, pass, branch,
}
use fuguex_peripheral.SuperH.{CmtPeripheral}
use fuguex_peripheral.SuperH.Step.{
  inst_rte, is_override, tick_both, nothing_matched, nothing_enabled, routine_of, enter_routine,
  take_interrupt, serve_1, serve, handle_interrupts, hook_architectural_step,
}
use fuguex_peripheral.SuperH.Frame.{HasStack, IsFramed, push_frame-IsFramed}

matched_starts : (start matched : Bool) → (if start then matched else false) ≡ true → start ≡ true
matched_starts true matched h = refl
matched_starts false matched h = cc

untriggered : (i : Interrupt) → i.triggered ≡ false → set_triggered i false ≡ i
untriggered i h = ap (set_triggered i) (sym h)

-- The channels at rest: neither is in its interrupt routine.
pub record IsIdle (p : CmtPeripheral) : Type 0 where
  pub idle_0 : p.int_0.triggered ≡ false
  pub idle_1 : p.int_1.triggered ≡ false

abbrev pub one_taken : CmtPeripheral → CmtPeripheral
one_taken p = record p { int_0 = set_triggered p.int_0 true }

abbrev pub both_taken : CmtPeripheral → CmtPeripheral
both_taken p = record p { int_0 = set_triggered p.int_0 true; int_1 = set_triggered p.int_1 true }

-- What `serve` makes of an idle peripheral whose channel 0 has matched.
abbrev pub served : CmtPeripheral → CmtPeripheral
served p = if Methods.is_matched p.cmt_1 && p.cmt_1.counter_start then both_taken p else one_taken p

-- What a step at the instruction that returns from an interrupt makes of the flags: where channel 0's
-- routine runs, and where only channel 1's does.
abbrev pub left_0 : CmtPeripheral → CmtPeripheral
left_0 p = record p { int_0 = set_triggered p.int_0 false }

abbrev pub left_1 : CmtPeripheral → CmtPeripheral
left_1 p =
    if Methods.is_matched p.cmt_0 || Methods.is_matched p.cmt_1
    then record p {
      int_0 = set_triggered p.int_0 (Methods.is_matched p.cmt_0);
      int_1 = set_triggered p.int_1 false;
    }
    else p

module _ (m : Machine) (e : ByteOrder) (p : CmtPeripheral) (s : m.State) (address : ℕ) where
  serve_0 :
      (instruction : ℕ)
      → IsIdle p
      → Methods.is_matched p.cmt_0 ≡ true
      → serve m e p s address instruction ≡ enter_routine m e (served p) p.h_0 s address
  unfolding serve serve_1 take_interrupt
  serve_0 instruction idle matched =
      let started = matched_starts p.cmt_0.counter_start p.cmt_0.matched matched in
      rw idle.idle_0 (
        rw matched (
          rw started (
            rw idle.idle_1
              (elim (Bool-cases (Methods.is_matched p.cmt_1 && p.cmt_1.counter_start)) [
                | inl both ↦ rw both
                | inr one ↦ rw one
              ]))))

  handle_interrupts_enter :
      {bs : List ℕ} {instruction : ℕ}
      → is_override p.h_0 ≡ false
      → is_override p.h_1 ≡ false
      → m.view_values s address 4 ≡ some bs
      → e.read_u32 bs ≡ some instruction
      → handle_interrupts m e p s address ≡ serve m e p s address instruction
  unfolding handle_interrupts
  handle_interrupts_enter o0 o1 seen read = rw o0 (rw o1 (rw seen (rw read)))

module _ (m : Machine) (e : ByteOrder) where
  return_seen_0 :
      (checks : Bool) (p p' : CmtPeripheral) (s : m.State) (address : ℕ) {bs : List ℕ}
      → tick_both checks p ≡ ok p'
      → is_override p'.h_0 ≡ false
      → is_override p'.h_1 ≡ false
      → m.view_values s address 4 ≡ some bs
      → e.read_u32 bs ≡ some inst_rte
      → p'.int_0.triggered ≡ true
      → hook_architectural_step m e checks p s address
        ≡ ok (record p' { int_0 = set_triggered p'.int_0 false }, s, unchanged pass)
  unfolding hook_architectural_step serve
  return_seen_0 checks p p' s address ticked o0 o1 fetched read in_0 =
      let busy : nothing_matched p' ≡ false = ground (arith, in_0) in
      let wanted : nothing_enabled p' ≡ false = ground (arith, in_0) in
      rw ticked (
        rw busy
          (rw wanted (rw (handle_interrupts_enter m e p' s address o0 o1 fetched read) (rw in_0))))

  return_seen_1 :
      (checks : Bool) (p p' : CmtPeripheral) (s : m.State) (address : ℕ) {bs : List ℕ}
      → tick_both checks p ≡ ok p'
      → is_override p'.h_0 ≡ false
      → is_override p'.h_1 ≡ false
      → m.view_values s address 4 ≡ some bs
      → e.read_u32 bs ≡ some inst_rte
      → p'.int_0.triggered ≡ false
      → p'.int_1.triggered ≡ true
      → hook_architectural_step m e checks p s address ≡ ok (left_1 p', s, unchanged pass)
  unfolding hook_architectural_step serve serve_1
  return_seen_1 checks p p' s address ticked o0 o1 fetched read out_0 in_1 =
      let wanted : nothing_enabled p' ≡ false = ground (arith, out_0, in_1) in
      let going = handle_interrupts_enter m e p' s address o0 o1 fetched read in
      elim (Bool-cases (Methods.is_matched p'.cmt_0)) [
        | inl m0 ↦
            let started = matched_starts p'.cmt_0.counter_start p'.cmt_0.matched m0 in
            let busy : nothing_matched p' ≡ false = ground (arith, m0) in
            rw ticked (rw busy (rw wanted (rw going (rw out_0 (rw m0 (rw started (rw in_1)))))))
        | inr q0 ↦ elim (Bool-cases (Methods.is_matched p'.cmt_1)) [
          | inl m1 ↦
              let busy : nothing_matched p' ≡ false = ground (arith, m1) in
              rw ticked (
                rw busy (
                  rw wanted
                    (rw going (rw out_0 (rw q0 (rw in_1 (rw (m1, untriggered p'.int_0 out_0))))))))
          | inr q1 ↦
              let quiet : nothing_matched p' ≡ true = rw out_0 (rw q0 (rw q1)) in
              rw ticked (rw quiet (rw q0 (rw q1)))
        ]
      ]

  -- While a routine runs, the instruction that returns from an interrupt ends the routine of channel 0
  -- if that runs. Otherwise it ends the routine of channel 1 only where one of the timers shows a match,
  -- and then a match of channel 0 marks its interrupt as taken, though no branch is made.
  pub return_from_interrupt :
      (checks : Bool) (p p' : CmtPeripheral) (s : m.State) (address : ℕ) {bs : List ℕ}
      → tick_both checks p ≡ ok p'
      → is_override p'.h_0 ≡ false
      → is_override p'.h_1 ≡ false
      → m.view_values s address 4 ≡ some bs
      → e.read_u32 bs ≡ some inst_rte
      → (p'.int_0.triggered || p'.int_1.triggered) ≡ true
      → hook_architectural_step m e checks p s address
        ≡ ok (if p'.int_0.triggered then left_0 p' else left_1 p', s, unchanged pass)
  return_from_interrupt checks p p' s address ticked o0 o1 fetched read running =
      elim (Bool-cases p'.int_0.triggered) [
        | inl in_0 ↦
            return_seen_0 checks p p' s address ticked o0 o1 fetched read in_0 ∙ rw in_0 refl
        | inr out_0 ↦
            let in_1 : p'.int_1.triggered ≡ true = rw out_0 at running in
            return_seen_1 checks p p' s address ticked o0 o1 fetched read out_0 in_1 ∙ rw out_0 refl
      ]

module _ (m : Machine) (e : ByteOrder) (laws : MemoryLaws m) (stack : StackLaws m)
    (addresses : AddressLaws m) (bytes : ByteOrderLaws e) where
  -- An idle peripheral whose channel 0 matches takes the interrupt: it saves SR and PC below the stack
  -- pointer, moves the stack pointer by 8 and branches to the routine that the vector of channel 0
  -- names. It suffices that either of the two interrupts is enabled.
  pub channel_0_taken :
      (checks : Bool) (p p' : CmtPeripheral) (s : m.State) (address v target sp sr : ℕ)
      {bs vs : List ℕ}
      → tick_both checks p ≡ ok p'
      → IsIdle p'
      → Methods.is_matched p'.cmt_0 ≡ true
      → (p'.int_0.enabled ≡ true) ⊎ (p'.int_1.enabled ≡ true)
      → p'.h_0 ≡ vector v
      → is_override p'.h_1 ≡ false
      → address < 2 ^ 32
      → m.view_values s address 4 ≡ some bs
      → m.view_values s v 4 ≡ some vs
      → e.read_u32 vs ≡ some target
      → HasStack m e s sp sr
      → (t : m.State) × (hook_architectural_step m e checks p s address
          ≡ ok (served p', t, unchanged (branch target)))
        × IsFramed m e sp sr address t
  unfolding hook_architectural_step enter_routine routine_of get_routine_address
  channel_0_taken checks p p' s address v target sp sr {bs = bs} ticked idle matched enabled h0 h1
        small fetched vectored routine_read has =
      let (instruction, read, fits) =
        bytes.read_u32_defined bs (omega (arith, laws.length_view s address 4 fetched)) in
      let (t, pushed, framed) =
        push_frame-IsFramed m e laws stack addresses bytes s sp sr address has small in
      let busy : nothing_matched p' ≡ false = ground (arith, matched, idle) in
      let wanted : nothing_enabled p' ≡ false = ground (arith, enabled, idle) in
      let o0 : is_override p'.h_0 ≡ false = rw h0 in
      (
        t,
        rw ticked (
            rw busy (
              rw wanted (
                rw (handle_interrupts_enter m e p' s address o0 h1 fetched read) (
                  rw (serve_0 m e p' s address instruction idle matched)
                    (rw h0 (rw vectored (rw routine_read (rw pushed)))))))),
        framed,
      )
