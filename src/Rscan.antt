-- ===== src/Rscan.antt =====
-- src/v850/rscan.rs: the V850's RS-CAN controller, which receives CAN frames from a socket or from a
-- queue that the harness fills. The handlers of firmware accesses are in `Input` and `Output`.
pub mod Can
pub mod Input
pub mod Ids
pub mod Output
pub mod Reception
pub mod Transmission
pub mod Status
pub mod Stores
pub mod Handler
pub mod Initial
pub mod Hooked
pub mod Sockets
pub mod Unavailable
pub mod Poisoned
use Prim.Native.String.{String, compare}
use Prim.Native.Nat.{Ordering}
use fuguex_peripheral.Base.{
  ℕ, ◌+◌, ◌<◌, Bool, true, false, List, [], ◌∷◌, push, Option, some, none, Outcome, ok, err, panic,
  unwrap, vcan_mode, socket_can_socket, if◌then◌else◌,
}
use fuguex_peripheral.Base.Acts.{Act, ◌>>=◌, ◌>>◌, pure, lift}
use fuguex_peripheral.Machine.{Machine, ByteOrder}
use Can.{Socketcan}

-- A map from names, by the comparison of strings.
abbrev pub get : String → List (String × ℕ) → Option ℕ
get name [] = none
get name ((key, addr) ∷ regs) = elim (compare key name) [
  | Ordering.eq ↦ some addr
  | _ ↦ get name regs
]

abbrev pub base : ℕ
base = 0xffd00000

-- The insertions of `get_peripheral_regs`, whose names are all different.
abbrev pub get_peripheral_regs : List (String × ℕ)
get_peripheral_regs =
    ("CFPCTR0", base + 0x01d8)
    ∷ ("CFID0", base + 0x0e80)
    ∷ ("CFPTR0", base + 0x0e84)
    ∷ ("CFDF00", base + 0x0e88)
    ∷ ("CFDF10", base + 0x0e8c)
    ∷ ("C0STS", base + 0x0008)
    ∷ ("C0ERFL", base + 0x000c)
    ∷ ("TXQPCTR0", base + 0x03e0)
    ∷ ("TMC0", base + 0x0250)
    ∷ ("TMID0", base + 0x1000)
    ∷ ("TMPTR0", base + 0x1004)
    ∷ ("TMDF00", base + 0x1008)
    ∷ ("TMDF10", base + 0x100c)
    ∷ ("TMSTS0", base + 0x02d0)
    ∷ ("RMND0", base + 0x00a8)
    ∷ ("RMID0", base + 0x0600)
    ∷ ("RMPTR0", base + 0x0604)
    ∷ ("RMDF00", base + 0x0608)
    ∷ ("RMDF10", base + 0x060c)
    ∷ ("RFID0", base + 0x0e00)
    ∷ ("RFSTS0", base + 0x00d8)
    ∷ ("RFDF00", base + 0x0e08)
    ∷ ("RFDF10", base + 0x0e0c)
    ∷ ("RFPTR0", base + 0x0e04)
    ∷ ("RFPCTR0", base + 0x00f8)
    ∷ ("GSTS", base + 0x008c)
    ∷ []

pub record RsCan (c : Socketcan) : Type 0 where
  pub socket : Option c.Socket
  pub interface : String
  pub regisiters : List (String × ℕ)
  pub data_queue : List c.CanFrame
  pub select_vcan_mode : Bool

abbrev pub get_regs_range : ℕ × ℕ
get_regs_range = (0xffd00000, 0xffd00000 + 0x19fc)

module _ (c : Socketcan) where
  unfoldable pub default : RsCan c
  default = record {
    socket = none;
    interface = "N/A";
    regisiters = get_peripheral_regs;
    data_queue = [];
    select_vcan_mode = true;
  }

  -- A clone opens a connection of its own, or has none, and starts with an empty queue.
  unfoldable pub clone : RsCan c → RsCan c
  clone r = record r { socket = c.open_socket r.interface; data_queue = [] }

  unfoldable pub new_queued : RsCan c
  new_queued = record {
    socket = none;
    interface = "N/A";
    regisiters = get_peripheral_regs;
    data_queue = [];
    select_vcan_mode = false;
  }

  -- The socket that `connect` hands out, opened at its first call.
  unfoldable pub connect : RsCan c → RsCan c × Outcome c.Socket
  connect r = elim r.socket [
    | some socket ↦ (r, ok socket)
    | none ↦ elim (c.open_socket r.interface) [
      | some socket ↦ (record r { socket = some socket }, ok socket)
      | none ↦ (r, err socket_can_socket)
    ]
  ]

  unfoldable pub new : String → Outcome (RsCan c)
  unfolding connect
  new virtual_can_interface =
      let (slf, connected) = connect (record {
        socket = none;
        interface = virtual_can_interface;
        regisiters = get_peripheral_regs;
        data_queue = [];
        select_vcan_mode = true;
      }) in
      elim connected [ ok socket ↦ ok slf | err e ↦ err e | panic ↦ panic ]

  -- The `unwrap` of `CANFrame::new` panics on an id of more than 29 bits.
  unfoldable pub enqueue_can_msg : ByteOrder → ℕ → ℕ → Act (RsCan c) (Unit {0})
  enqueue_can_msg e can_id word r =
      if r.select_vcan_mode
      then (r, err vcan_mode)
      else elim (c.new_frame can_id (e.write_u64 word) false false) [
        | some frame ↦ (record r { data_queue = push r.data_queue frame }, ok tt)
        | none ↦ (r, panic)
      ]

  abbrev pub front : List c.CanFrame → Option c.CanFrame
  front [] = none
  front (frame ∷ frames) = some frame

  abbrev pub pop_front : List c.CanFrame → List c.CanFrame
  pop_front [] = []
  pop_front (frame ∷ frames) = frames

  unfoldable pub dequeue_can_msg : RsCan c → RsCan c × Option c.CanFrame
  dequeue_can_msg r = (record r { data_queue = pop_front r.data_queue }, front r.data_queue)

  unfoldable pub clear_can_msg_queue : RsCan c → RsCan c
  clear_can_msg_queue r = record r { data_queue = [] }

  abbrev pub peek_can_msg : RsCan c → Option c.CanFrame
  peek_can_msg r = front r.data_queue

  unfoldable pub get_reg_addr : RsCan c → String → Outcome ℕ
  get_reg_addr r name = unwrap (get name r.regisiters)

  abbrev pub get_regs : RsCan c → List (String × ℕ)
  get_regs r = r.regisiters

  module _ (m : Machine) (e : ByteOrder) where
    -- The controller and the emulator's state, on which the handlers act.
    abbrev pub Both : Type 0
    Both = RsCan c × m.State

    abbrev pub reg : String → Act Both ℕ
    reg name (r, s) = ((r, s), get_reg_addr r name)

    abbrev pub view : ℕ → ℕ → Act Both (List ℕ)
    view addr n (r, s) = ((r, s), unwrap (m.view_values s addr n))

    -- `set_values(..).unwrap()`.
    abbrev pub set : ℕ → List ℕ → Act Both (Unit {0})
    set addr bytes (r, s) = elim (m.set_values s addr bytes) [
      | some s' ↦ ((r, s'), ok tt)
      | none ↦ ((r, s), panic)
    ]

    unfoldable pub get_reg_val : String → Act Both ℕ
    get_reg_val name = do
      reg_addr ← reg name
      bytes ← view reg_addr 4
      lift (unwrap (e.read_u32 bytes))

    unfoldable pub set_reg_value_u8 : String → ℕ → Act Both (Unit {0})
    set_reg_value_u8 name value = do reg_addr ← reg name; set reg_addr (value ∷ [])

    -- As in the source, the zero meant for GSTS is written to RFSTS0 first.
    unfoldable pub init : Act Both (Unit {0})
    init = do
      addr_tmsts ← reg "TMSTS0"
      set addr_tmsts (0x00 ∷ [])
      addr_rfsts ← reg "RFSTS0"
      set addr_rfsts (e.write_u32 0x01)
      set addr_rfsts (e.write_u32 0x00)
      addr_gsts ← reg "GSTS"
      set addr_gsts (e.write_u32 0x00)
