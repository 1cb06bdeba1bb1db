-- ===== src/WatchPoint.antt =====
-- include/WatchPoint.h and source/WatchPoint.cpp: a hardware watchpoint, which is one of the four
-- slots of the debug registers of a traced thread. The shifts are made in `int`, whose 32-bit
-- pattern is sign-extended where it meets the 64-bit dr7; the two enumerations promote to `int`.
mod Dr7
mod Requests
mod Tests
use spytester.Base.{
  ℕ, ◌+◌, ◌-◌, ◌*◌, ◌^◌, ◌%◌, Bool, true, false, bit_and, bit_or, ltb, ◌==◌, if◌then◌else◌,
}
use spytester.Base.Words.{shl32, not32, widen}
use spytester.Tracer.{Request, Reply, Tracer, peek_dr, poke_dr, failed, command_ptrace}

abbrev pub max_nb : ℕ
max_nb = 4

pub data Trigger : Type 0 where
  execution write read_write : Trigger

pub data Size : Type 0 where
  bytes1 bytes2 bytes4 bytes8 : Size

abbrev pub trigger_code : Trigger → ℕ
trigger_code execution = 0
trigger_code write = 1
trigger_code read_write = 3

abbrev pub size_code : Size → ℕ
size_code bytes1 = 0
size_code bytes2 = 1
size_code bytes4 = 3
size_code bytes8 = 2

pub record WatchPoint : Type 0 where
  pub idx : ℕ
  pub addr : ℕ
  pub is_set : Bool

-- The operands of the compound assignments to dr7 in `set`, and the one in `unset`.
abbrev pub keep_mask : ℕ → ℕ
keep_mask i = widen (not32 (bit_or (shl32 3 (i * 2)) (shl32 15 (i * 4 + 16))))

abbrev pub enable_mask : ℕ → ℕ
enable_mask i = widen (shl32 3 (i * 2))

abbrev pub trigger_mask : ℕ → Trigger → ℕ
trigger_mask i t = widen (shl32 (trigger_code t) (i * 4 + 16))

abbrev pub size_mask : ℕ → Size → ℕ
size_mask i s = widen (shl32 (size_code s) (i * 4 + 18))

abbrev pub disable_mask : ℕ → ℕ
disable_mask i = widen (not32 (shl32 3 (i * 2)))

-- dr7 as `set` leaves it, from the value read.
unfoldable pub programmed : ℕ → ℕ → Trigger → Size → ℕ
programmed dr7 i t s =
    bit_or (bit_or (bit_or (bit_and dr7 (keep_mask i)) (enable_mask i)) (trigger_mask i t))
      (size_mask i s)

unfoldable pub disabled : ℕ → ℕ → ℕ
disabled dr7 i = bit_and dr7 (disable_mask i)

-- The constructor.
unfoldable pub new : ℕ → WatchPoint
new i = record { idx = i; addr = 0; is_set = false }

module _ {M : Type 0} (exec : M → Request → M × Reply) where
  -- dr7 is read before the address register is written, and the reply awaited after that.
  unfoldable pub set : Tracer M → ℕ → WatchPoint → ℕ → Trigger → Size → Tracer M × WatchPoint × Bool
  unfolding command_ptrace
  set t tid wp addr trigger size =
      let (t1, dr7) = command_ptrace exec t (peek_dr tid 7) in
      let (t2, _) = command_ptrace exec t1 (poke_dr tid wp.idx addr) in
      let moved = record wp { addr = addr } in
      let done =
        (command_ptrace exec t2 (poke_dr tid 7 (programmed dr7.res wp.idx trigger size))).0 in
      if dr7.res == failed then (t2, moved, false) else (done, record moved { is_set = true }, true)

  unfoldable pub unset : Tracer M → ℕ → WatchPoint → Tracer M × WatchPoint × Bool
  unfolding command_ptrace
  unset t tid wp =
      let (t1, dr7) = command_ptrace exec t (peek_dr tid 7) in
      let done = (command_ptrace exec t1 (poke_dr tid 7 (disabled dr7.res wp.idx))).0 in
      if dr7.res == failed then (t1, wp, false) else (done, record wp { is_set = false }, true)
