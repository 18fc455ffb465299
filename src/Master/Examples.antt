-- ===== src/Master/Examples.antt =====
-- The theorem about `select_next_master` of app/main.c at a concrete input.
use memtest86plus.Base.{ℕ, ◌≡◌, refl, arith, some, Bool, ◌==◌}
use memtest86plus.Master.{select_next_master}
use memtest86plus.Master.Choice.{IsMaster, select_next_master_lem}

-- CPU 3 of four is disabled, so that CPU 0 follows CPU 2.
abbrev is_third : ℕ → Bool
is_third cpu = cpu == 3

wraps : select_next_master is_third 4 4 2 ≡ some 0
unfolding select_next_master
wraps = refl

select_next_master_lem_example :
    (r : ℕ) × (select_next_master is_third 4 4 2 ≡ some r) × IsMaster is_third 4 r
select_next_master_lem_example =
    select_next_master_lem is_third 4 2 1 (omega arith) (omega arith) refl
