-- ===== src/Rscan/Handler.antt =====
-- The RS-CAN controller of src/v850/rscan.rs as the handler of a polling peripheral.
use fuguex_peripheral.Base.{Outcome}
use fuguex_peripheral.Machine.{Machine, ByteOrder}
use fuguex_peripheral.Polling.{PollingPeripheralHandler}
use fuguex_peripheral.Rscan.{RsCan, Both, init}
use fuguex_peripheral.Rscan.Can.{Socketcan}
use fuguex_peripheral.Rscan.Input.{handle_input}
use fuguex_peripheral.Rscan.Output.{handle_output}

module _ (c : Socketcan) (m : Machine) (e : ByteOrder) where
  abbrev apart : Both c m e × Outcome (Unit {0}) → RsCan c × m.State × Outcome (Unit {0})
  apart ((r, s), result) = (r, s, result)

  abbrev pub handler : PollingPeripheralHandler m.State
  handler = record {
    Self = RsCan c;
    init = λ r s. apart (init c m e (r, s));
    handle_input = λ r s input size. apart (handle_input c m e input (r, s));
    handle_output = λ r s output value size. apart (handle_output c m e output value (r, s));
  }
