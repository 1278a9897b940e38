-- ===== src/Tests/LoopRuns.antt =====
-- The theorems on polling loops of src/bypass at a concrete loop.
use fuguex_peripheral.Base.{inl, ◌≡◌, refl, arith, true, false, [], ok, panic, if◌then◌else◌, ◌==◌}
use fuguex_peripheral.Bypass.{
  address, register, variable, constant, load, c_branch, i_branch, subpiece,
}
use fuguex_peripheral.Bypass.Solver.{
  add_pcode, add_binary, assign, var_list_insert, insert_named, new_variables,
  symexpr_from_operand_read, var_list_get, get_named,
}
use fuguex_peripheral.Bypass.Values.{read_value}
use fuguex_peripheral.Bypass.Body.{exec_all, next_all}
use fuguex_peripheral.Bypass.Exit.{after_load}
use fuguex_peripheral.Bypass.Peripheral.{DummyPeripheral}
use fuguex_peripheral.Bypass.Peripheral.Hook.{hook_operation_step}
use fuguex_peripheral.Bypass.Peripheral.Polls.{with_result}
use fuguex_peripheral.Bypass.Peripheral.Ends.{loop_ends}
use fuguex_peripheral.Bypass.Peripheral.Follows.{hook_all}
use fuguex_peripheral.Tests.Loop.{
  functions, function_models, no_registers, one_byte, places, watching, quiet, all_ones,
  fresh-Agrees, same, body, other_name, first_solver, body-IsRun,
}
use fuguex_peripheral.Bypass.Peripheral.Indirect.{is_i_branch, unknown_panics}
use fuguex_peripheral.Bypass.Pieces.{subpiece_ignores_amount}

loop_ends_example :
    (p₁ p₂ p₃ : DummyPeripheral functions places) × (hook_operation_step functions places
        no_registers one_byte same same true true watching quiet
        (load (register "r1" 4 1) (register "r0" 0 1))
      ≡ ok (p₁, quiet))
    × (hook_all functions places no_registers one_byte same same true true p₁ [] body ≡ ok (p₂, []))
    × (hook_operation_step functions places no_registers one_byte same same true true p₂
          (record quiet { state = 6 })
          (c_branch (address 0x40 4) (variable 1 8 4))
        ≡ ok (
          p₃,
          record {
            state = 7;
            solving_results = with_result watching.solving_results_cache_enable 0x1000 1 7 [];
          },
        ))
    × (p₃.solving_started ≡ false)
    × (p₂.last_mem_read_event.read_address ≡ 0x1000)
    × (read_value functions places function_models.values
          (exec_all functions places no_registers function_models.values
            (after_load functions places no_registers function_models all_ones "r1"
              (register "r1" 4 1)
              "r0"
              (register "r0" 0 1)
              7)
            body)
          (variable 1 8 4)
        ≡ 0)
unfolding next_all add_pcode add_binary assign var_list_insert insert_named new_variables
    symexpr_from_operand_read var_list_get get_named
loop_ends_example =
    loop_ends functions places no_registers one_byte same same true true function_models watching
      quiet 6 7 all_ones (register "r1" 4 1) (register "r0" 0 1) (variable 1 8 4) "r1" "r0" body
      (λ r. if r == 7 then 0 else 1) (0x1000, 0x1fff) 0x1000 0x40 4 7 (omega arith) refl refl refl
      refl refl refl refl refl (λ kv. refl) (λ r. refl) (omega arith) fresh-Agrees body-IsRun
      (λ q. other_name "variable" q refl) refl refl (inl refl) refl refl

unknown_panics_example :
    (p₁ p₂ : DummyPeripheral functions places) × (hook_operation_step functions places no_registers
        one_byte same same true true watching quiet
        (load (register "r1" 4 1) (register "r0" 0 1))
      ≡ ok (p₁, quiet))
    × (hook_all functions places no_registers one_byte same same true true p₁ [] body ≡ ok (p₂, []))
    × (hook_operation_step functions places no_registers one_byte same same true true p₂
          (record quiet { state = 6 })
          (i_branch (register "r2" 8 4))
        ≡ panic)
unknown_panics_example =
    unknown_panics functions places no_registers one_byte same same true true function_models 7
      watching quiet 6 6 all_ones (register "r1" 4 1) (register "r0" 0 1)
      (i_branch (register "r2" 8 4)) "r1" "r0" body (0x1000, 0x1fff) 0x1000 0x40
      (is_i_branch (register "r2" 8 4)) (omega arith) refl refl refl refl refl refl refl refl
      (omega arith) (fresh-Agrees 7) body-IsRun

-- The high and the low half of a word.
subpiece_ignores_amount_example :
    add_pcode functions places no_registers true first_solver 5
      (subpiece (register "r3" 12 2) (register "r0" 0 4) (constant 2 4))
    ≡ add_pcode functions places no_registers true first_solver 5
        (subpiece (register "r3" 12 2) (register "r0" 0 4) (constant 0 4))
subpiece_ignores_amount_example =
    subpiece_ignores_amount functions places no_registers true first_solver 5 (register "r3" 12 2)
      (register "r0" 0 4) 2 4 4 (omega arith) (omega arith)
