-- ===== src/Utility.antt =====
-- threads/utility.h: division rounded down and up.
use cop5614nachos.Base.{ℕ, ◌+◌, ◌/◌, ◌%◌, ltb, if◌then◌else◌}

abbrev pub div_round_down : ℕ → ℕ → ℕ
div_round_down n s = n / s

abbrev pub div_round_up : ℕ → ℕ → ℕ
div_round_up n s = n / s + (if ltb 0 (n % s) then 1 else 0)
