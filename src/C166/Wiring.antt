-- ===== src/C166/Wiring.antt =====
-- The register maps that `new` of src/c166/general_purpose_timer.rs sets up stay as they are.
use fuguex_peripheral.Base.{
  ℕ, ◌≡◌, refl, ◌∙◌, List, Bool, ok, >>=-eq-ok, unwrap, Bool-cases, inl, inr,
}
use fuguex_peripheral.Machine.{Machine}
use fuguex_peripheral.Timer.{Functions, tick}
use fuguex_peripheral.Timer.Registers.{handle_reg_write}
use fuguex_peripheral.Timer.Maps.{SameMaps, handle_reg_write-SameMaps, tick-SameMaps}
use fuguex_peripheral.Interrupt.{HookOutcome}
use fuguex_peripheral.C166.{
  GeneralPurposeTimer, wired, new, hook_architectural_step, write_register, hook_memory_write,
  is_register, write_value,
}

abbrev pub IsWired : GeneralPurposeTimer → Type 0
IsWired g = SameMaps wired g.backend_cmt6

pub new-IsWired : IsWired new
unfolding new
new-IsWired = (refl, refl)

hook_architectural_step-IsWired :
    (checks : Bool) (g g' : GeneralPurposeTimer) (out : HookOutcome)
    → hook_architectural_step checks g ≡ ok (g', out)
    → IsWired g
    → IsWired g'
unfolding hook_architectural_step
hook_architectural_step-IsWired checks g g' out h (r, w) =
    let ((cmt6, fired), ticked, rest) = >>=-eq-ok (tick checks g.backend_cmt6) _ h in
    let (r', w') = tick-SameMaps checks fired g.backend_cmt6 cmt6 ticked in
    let same : g'.backend_cmt6 ≡ cmt6 = cc rest in rw same (r' ∙ r, w' ∙ w)

module _ (iter : Functions → Functions) where
  write_register-IsWired :
      (g g' : GeneralPurposeTimer) (addr : ℕ) (value : List ℕ)
      → write_register iter g addr value ≡ ok g'
      → IsWired g
      → IsWired g'
  unfolding write_register
  write_register-IsWired g g' addr value h (r, w) =
      let (v, read, later) = >>=-eq-ok (write_value value) _ h in
      let (cmt6, written, rest) = >>=-eq-ok (handle_reg_write iter g.backend_cmt6 addr v) _ later in
      let (r', w') = handle_reg_write-SameMaps iter g.backend_cmt6 cmt6 addr v written in
      let same : g'.backend_cmt6 ≡ cmt6 = cc rest in rw same (r' ∙ r, w' ∙ w)

  hook_memory_write-IsWired :
      (m : Machine) (g g' : GeneralPurposeTimer) (address : ℕ) (value : List ℕ)
      → hook_memory_write iter m g address value ≡ ok g'
      → IsWired g
      → IsWired g'
  unfolding hook_memory_write
  hook_memory_write-IsWired m g g' address value h wire =
      let (addr, small, rest) = >>=-eq-ok (unwrap (m.address_to_u32 address)) _ h in
      elim (Bool-cases (is_register addr)) [
        | inl yes_it_is ↦ write_register-IsWired g g' addr value (rw yes_it_is at rest) wire
        | inr other ↦
            let same : ok g ≡ ok g' = rw other at rest in
            let g_same : g ≡ g' = cc same in rw (← g_same) wire
      ]
