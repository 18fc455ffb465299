-- ===== src/Master.antt =====
-- app/main.c: `select_next_master`, which passes the role of the master on to the next CPU that is
-- not disabled.
pub mod Choice
mod Examples
use memtest86plus.Base.{ℕ, zero, suc, ◌+◌, ◌%◌, Bool, Option, none, some, if◌then◌else◌}

-- `is_disabled` tells which CPUs are in the state `CPU_STATE_DISABLED`; `none` means that the fuel
-- ran out.
pub select_next_master : (ℕ → Bool) → ℕ → ℕ → ℕ → Option ℕ
select_next_master is_disabled num_available_cpus zero master_cpu = none
select_next_master is_disabled num_available_cpus (suc fuel) master_cpu =
    let next = (master_cpu + 1) % num_available_cpus in
    let rest = select_next_master is_disabled num_available_cpus fuel next in
    if is_disabled next then rest else some next
