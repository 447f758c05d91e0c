-- ===== src/Prelude/Words.antt =====
-- A C `int` as its 32-bit pattern, and the `errno` values that the library sets or returns.
use Prim.Native.Nat.{ℕ, ◌+◌, ◌-◌, ◌%◌, ◌^◌}
use mathlib.Core.Bool.{Bool, ◌&&◌}
use unvme_cli.Prelude.Tests.{ltb}

-- `x + 1`, `x - 1` and `x - y` on `int` counters, as the atomic operations wrap them.
abbrev pub inc32 : ℕ → ℕ
inc32 x = (x + 1) % 2 ^ 32

abbrev pub dec32 : ℕ → ℕ
dec32 x = (x + 2 ^ 32 - 1) % 2 ^ 32

abbrev pub sub32 : ℕ → ℕ → ℕ
sub32 x y = (x + 2 ^ 32 - y % 2 ^ 32) % 2 ^ 32

-- `x > 0` of a pattern read as a signed number.
abbrev pub is_pos32 : ℕ → Bool
is_pos32 x = ltb 0 x && ltb x (2 ^ 31)

-- The values of <errno.h> on Linux.
abbrev pub eperm : ℕ
eperm = 1

abbrev pub enoent : ℕ
enoent = 2

abbrev pub eagain : ℕ
eagain = 11

abbrev pub enomem : ℕ
enomem = 12

abbrev pub ebusy : ℕ
ebusy = 16

abbrev pub eexist : ℕ
eexist = 17

abbrev pub enodev : ℕ
enodev = 19

abbrev pub einval : ℕ
einval = 22

abbrev pub enospc : ℕ
enospc = 28

abbrev pub ebade : ℕ
ebade = 52

abbrev pub ealready : ℕ
ealready = 114
