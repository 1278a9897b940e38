-- ===== src/SuperH/Bindings.antt =====
-- The registers of src/SuperH/compare_match_timer.rs, and the functions that are bound to them.
use mathlib.Core.List.{Memᴰ}
use fuguex_peripheral.Base.{ℕ, ◌^◌, ◌<◌, ◌≡◌, refl, ap, ◌∙◌, true, [], ◌∷◌, some, lt→ltb, lookup}
use fuguex_peripheral.Timer.{CompareMatchTimer, Functions, Registers, FunName}
use fuguex_peripheral.Timer.Upper.{can_show}
use fuguex_peripheral.SuperH.{wired_0, wired_1, is_channel_0, is_channel_1}

-- All functions of a register can be shown.
abbrev AllShown : CompareMatchTimer → Functions → Type 0
AllShown t [] = Unit {0}
AllShown t ((mask, fun) ∷ fs) = (can_show t mask fun ≡ true) × AllShown t fs

pub member_shown :
    (t : CompareMatchTimer) (fs : Functions) (x : ℕ × FunName)
    → AllShown t fs
    → Memᴰ x fs
    → can_show t x.0 x.1 ≡ true
member_shown t [] x all d = elim d [ ]
member_shown t (y ∷ fs) x (good, all) (Memᴰ.head e) = rw e good
member_shown t (y ∷ fs) x (good, all) (Memᴰ.tail d) = member_shown t fs x all d

-- The addresses of the registers: CMSTR, and CMCSR, CMCNT and CMCOR of both channels.
pub data IsRegister : ℕ → Type 0 where
  at_cmstr : IsRegister 0xfffec000
  at_cmcsr_0 : IsRegister 0xfffec002
  at_cmcnt_0 : IsRegister 0xfffec004
  at_cmcor_0 : IsRegister 0xfffec006
  at_cmcsr_1 : IsRegister 0xfffec008
  at_cmcnt_1 : IsRegister 0xfffec00a
  at_cmcor_1 : IsRegister 0xfffec00c

-- The numbers of a timer fit the words by which registers are read.
pub record IsNarrow (t : CompareMatchTimer) : Type 0 where
  pub tick_fits : t.current_tick < 2 ^ 32
  pub compare_fits : t.compare_against < 2 ^ 32

-- The register is bound, to functions that can be shown.
pub record IsBound (t : CompareMatchTimer) (regs : Registers) (addr : ℕ) : Type 0 where
  pub functions : Functions
  pub found : lookup addr regs ≡ some functions
  pub good : AllShown t functions

pub IsBound-maps :
    (t u : CompareMatchTimer) (addr : ℕ)
    → t.reg_read_map ≡ u.reg_read_map
    → IsBound t u.reg_read_map addr
    → IsBound t t.reg_read_map addr
IsBound-maps t u addr same b = record {
  functions = b.functions;
  found = ap (lookup addr) same ∙ b.found;
  good = b.good;
}

pub wired_0-IsBound :
    (t : CompareMatchTimer) (addr : ℕ)
    → IsNarrow t
    → IsRegister addr
    → is_channel_0 addr ≡ true
    → IsBound t wired_0.reg_read_map addr
unfolding wired_0
wired_0-IsBound t _ n at_cmstr h = record { functions = _; found = refl; good = (refl, tt) }
wired_0-IsBound t _ n at_cmcsr_0 h = record {
  functions = _;
  found = refl;
  good = (refl, (refl, tt));
}
wired_0-IsBound t _ n at_cmcnt_0 h = record {
  functions = _;
  found = refl;
  good = (lt→ltb _ _ n.tick_fits, tt);
}
wired_0-IsBound t _ n at_cmcor_0 h = record {
  functions = _;
  found = refl;
  good = (lt→ltb _ _ n.compare_fits, tt);
}
wired_0-IsBound t _ n at_cmcsr_1 h = cc h
wired_0-IsBound t _ n at_cmcnt_1 h = cc h
wired_0-IsBound t _ n at_cmcor_1 h = cc h

pub wired_1-IsBound :
    (t : CompareMatchTimer) (addr : ℕ)
    → IsNarrow t
    → IsRegister addr
    → is_channel_1 addr ≡ true
    → IsBound t wired_1.reg_read_map addr
unfolding wired_1
wired_1-IsBound t _ n at_cmstr h = record { functions = _; found = refl; good = (refl, tt) }
wired_1-IsBound t _ n at_cmcsr_1 h = record {
  functions = _;
  found = refl;
  good = (refl, (refl, tt));
}
wired_1-IsBound t _ n at_cmcnt_1 h = record {
  functions = _;
  found = refl;
  good = (lt→ltb _ _ n.tick_fits, tt);
}
wired_1-IsBound t _ n at_cmcor_1 h = record {
  functions = _;
  found = refl;
  good = (lt→ltb _ _ n.compare_fits, tt);
}
wired_1-IsBound t _ n at_cmcsr_0 h = cc h
wired_1-IsBound t _ n at_cmcnt_0 h = cc h
wired_1-IsBound t _ n at_cmcor_0 h = cc h
