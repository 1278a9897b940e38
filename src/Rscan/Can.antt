-- ===== src/Rscan/Can.antt =====
-- What src/v850/rscan.rs uses of the crate `socketcan`: frames, and sockets on an interface. None of it
-- is in the repository, so the operations are parameters, and the behaviour of frames is stated as laws.
use Prim.Native.String.{String}
use fuguex_peripheral.Base.{ℕ, ◌^◌, ◌≤◌, ◌<◌, ◌≡◌, Bool, false, List, Option, some, length}

-- `none` is the `Err` of an operation. A socket's operations give the socket as they leave it.
pub record Socketcan : Type 1 where
  pub CanFrame : Type 0
  -- `CANFrame::new(id, data, rtr, err)`, `id` and `data` (here `payload`).
  pub new_frame : ℕ → List ℕ → Bool → Bool → Option CanFrame
  pub id : CanFrame → ℕ
  pub payload : CanFrame → List ℕ
  -- `CANSocket`, and its `open`.
  pub Socket : Type 0
  pub open_socket : String → Option Socket
  -- `set_read_timeout`, in seconds; `read_frame` and `write_frame`.
  pub set_read_timeout : Socket → ℕ → Option Socket
  pub read_frame : Socket → Option (CanFrame × Socket)
  pub write_frame : Socket → CanFrame → Option Socket

-- A data frame with an id of 29 bits and up to 8 bytes is made, and holds both.
pub record FrameLaws (c : Socketcan) : Type 0 where
  pub new_frame_defined :
      (i : ℕ) (bytes : List ℕ)
      → i < 2 ^ 29
      → length bytes ≤ 8
      → (f : c.CanFrame) × (c.new_frame i bytes false false ≡ some f)
        × (c.id f ≡ i)
        × (c.payload f ≡ bytes)
