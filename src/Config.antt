-- ===== src/Config.antt =====
-- app/config.h: the settings that the other parts read.
use mathlib.Core.Bool.{Bool, true, false}

-- `error_mode_t`
pub data ErrorMode : Type 0 where
  none summary address badram memmap pages : ErrorMode

-- `cpu_mode_t`
pub data CpuMode : Type 0 where
  par seq one : CpuMode

abbrev pub is_badram : ErrorMode → Bool
is_badram ErrorMode.badram = true
is_badram _ = false
