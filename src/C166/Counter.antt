-- ===== src/C166/Counter.antt =====
-- The counter register T6 of src/c166/general_purpose_timer.rs, from a write by the firmware to the word
-- that a read finds.
use fuguex_peripheral.Base.{
  ℕ, ◌+◌, ◌*◌, ◌^◌, ◌<◌, ◌≤◌, ◌≡◌, refl, ap, ◌∙◌, arith, List, [], ◌∷◌, Perm, Bool, Outcome, ok,
  panic, ◌>>=◌, >>=-eq-ok, zero, suc, some, lookup, true,
}
use fuguex_peripheral.Machine.{Machine, ByteOrder, MemoryLaws, ByteOrderLaws, AddressLaws}
use fuguex_peripheral.Timer.Tick.{ticks, ticks_overrun}
use fuguex_peripheral.Timer.{
  CompareMatchTimer, tick, u128_mod, Functions, get_current_tick, set_current_tick,
}
use fuguex_peripheral.Timer.Single.{
  low_half_set, handle_reg_write_counter, handle_reg_read_counter, handle_reg_read_large,
}
use fuguex_peripheral.Interrupt.{set_enable as set_interrupt_enable}
use fuguex_peripheral.C166.{
  GeneralPurposeTimer, hook_architectural_step, wired, hook_memory_read, hook_memory_write,
  write_register, addr_t6, write_value,
}
use fuguex_peripheral.C166.Wiring.{IsWired}

t6_read_map : lookup addr_t6 wired.reg_read_map ≡ some ((0xffff, get_current_tick) ∷ [])
unfolding wired
t6_read_map = refl

t6_write_map : lookup addr_t6 wired.reg_write_map ≡ some ((0xffff, set_current_tick) ∷ [])
unfolding wired
t6_write_map = refl

-- `n` calls of the step hook.
unfoldable pub steps : Bool → ℕ → GeneralPurposeTimer → Outcome GeneralPurposeTimer
steps checks zero g = ok g
steps checks (suc n) g = do (g', out) ← hook_architectural_step checks g; steps checks n g'

steps-ticks :
    (checks : Bool) (n : ℕ) (g : GeneralPurposeTimer) (t : CompareMatchTimer) (count : ℕ)
    → ticks checks n g.backend_cmt6 ≡ ok (t, count)
    → steps checks n g ≡ ok (record g { backend_cmt6 = t })
unfolding steps ticks hook_architectural_step
steps-ticks checks zero g t count h = ground arith
steps-ticks checks (suc n) g t count h =
    let ((t', fired), first, rest) = >>=-eq-ok (tick checks g.backend_cmt6) _ h in
    let ((last, counted), later, end) = >>=-eq-ok (ticks checks n t') _ rest in
    let same : last ≡ t = cc end in
    rw first
      (rw (← same) (steps-ticks checks n (record g { backend_cmt6 = t' }) last counted later))

module _ (iter : Functions → Functions) (order : (fs : Functions) → Perm fs (iter fs)) where
  write_t6 :
      (g : GeneralPurposeTimer) (lo hi : ℕ)
      → IsWired g
      → lo < 256
      → hi < 256
      → (g' : GeneralPurposeTimer) × (write_register iter g addr_t6 (lo ∷ hi ∷ []) ≡ ok g')
        × (g'.backend_cmt6 ≡ record g.backend_cmt6 { current_tick = lo + 256 * hi })
  unfolding write_register write_value
  write_t6 g lo hi (r, w) hlo hhi =
      let found : lookup addr_t6 g.backend_cmt6.reg_write_map
          ≡ some ((0xffff, set_current_tick) ∷ []) =
        ap (lookup addr_t6) w ∙ t6_write_map in
      let value : lo + 256 * (hi + 256 * 0) ≡ lo + 256 * hi = omega arith in
      let fits : lo + 256 * hi < 2 ^ 16 = omega arith in
      let written =
        handle_reg_write_counter iter order g.backend_cmt6 addr_t6 (lo + 256 * hi) found fits in
      (
        record g {
          backend_cmt6 = record g.backend_cmt6 { current_tick = lo + 256 * hi };
          interrupt = set_interrupt_enable g.interrupt g.backend_cmt6.interrupt_enabled;
        },
        rw value (rw written),
        refl,
      )

  module _ (m : Machine) (e : ByteOrder) (laws : MemoryLaws m) (bytes : ByteOrderLaws e)
      (addresses : AddressLaws m) where
    -- T6 reads back what was written to it: after a two-byte write, a read leaves in memory the word
    -- that was there with its low half replaced by the value written.
    pub t6_round_trip :
        (g : GeneralPurposeTimer) (s : m.State) (lo hi word : ℕ) {old : List ℕ}
        → IsWired g
        → lo < 256
        → hi < 256
        → m.view_values s addr_t6 4 ≡ some old
        → e.read_u32 old ≡ some word
        → word < 2 ^ 32
        → (g' : GeneralPurposeTimer) × (s' : m.State) × (hook_memory_write iter m g addr_t6
              (lo ∷ hi ∷ [])
            ≡ ok g')
          × (hook_memory_read iter m e g' s addr_t6 ≡ ok s')
          × (m.view_values s' addr_t6 4 ≡ some (e.write_u32 (low_half_set word (lo + 256 * hi))))
    unfolding hook_memory_write hook_memory_read
    t6_round_trip g s lo hi word wire hlo hhi seen read fits =
        let (g', written, after) = write_t6 g lo hi wire hlo hhi in
        let t6_written = record g.backend_cmt6 { current_tick = lo + 256 * hi } in
        let found : lookup addr_t6 g.backend_cmt6.reg_read_map
            ≡ some ((0xffff, get_current_tick) ∷ []) =
          ap (lookup addr_t6) wire.0 ∙ t6_read_map in
        let (s', shown, stored) =
          handle_reg_read_counter iter order m e laws bytes t6_written s addr_t6 word found
            (omega arith) seen read fits in
        let small = addresses.to_u32_small addr_t6 (omega arith) in
        let view = laws.view_set s addr_t6 _ stored in
        (
          g',
          s',
          rw small written,
          rw small (rw after (rw shown)),
          rw (bytes.length_write_u32 _) at view,
        )

    t6_too_large :
        (g : GeneralPurposeTimer) (s : m.State)
        → IsWired g
        → 2 ^ 32 ≤ g.backend_cmt6.current_tick
        → hook_memory_read iter m e g s addr_t6 ≡ panic
    unfolding hook_memory_read
    t6_too_large g s wire large =
        let found : lookup addr_t6 g.backend_cmt6.reg_read_map
            ≡ some ((0xffff, get_current_tick) ∷ []) =
          ap (lookup addr_t6) wire.0 ∙ t6_read_map in
        rw (addresses.to_u32_small addr_t6 (omega arith))
          (rw (handle_reg_read_large iter order m e g.backend_cmt6 s addr_t6 found large))

    -- A running counter that is set to the compare value or beyond never matches again before it
    -- overflows; it leaves 16 and then 32 bits, and from there on a read of T6 panics.
    pub t6_overrun :
        (checks : Bool) (n : ℕ) (g : GeneralPurposeTimer) (s : m.State)
        → IsWired g
        → g.backend_cmt6.counter_start ≡ true
        → g.backend_cmt6.count_forward ≡ true
        → g.backend_cmt6.compare_against ≤ g.backend_cmt6.current_tick
        → 2 ^ 32 ≤ g.backend_cmt6.current_tick + n
        → g.backend_cmt6.current_tick + n < u128_mod
        → (g' : GeneralPurposeTimer) × (steps checks n g ≡ ok g')
          × (g'.backend_cmt6.matched ≡ g.backend_cmt6.matched)
          × (hook_memory_read iter m e g' s addr_t6 ≡ panic)
    t6_overrun checks n g s wire start forward past large fits =
        let late = record g.backend_cmt6 { current_tick = g.backend_cmt6.current_tick + n } in
        (
          record g { backend_cmt6 = late },
          steps-ticks checks n g late 0
              (ticks_overrun checks n g.backend_cmt6 start forward past fits),
          refl,
          t6_too_large (record g { backend_cmt6 = late }) s wire large,
        )
