-- ===== src/Chunk.antt =====
-- tests/test_helper.h and tests/test_helper.c: how a memory segment is divided among the CPUs.
-- Addresses of test words are byte addresses; `end` is the address of the last word.
pub mod Share
mod Examples
use memtest86plus.Base.{
  ℕ, zero, suc, ◌+◌, ◌-◌, ◌*◌, ◌/◌, ◌%◌, ◌^◌, bit_and, bit_xor, Bool, true, false, Option, none,
  some,
}
use memtest86plus.Base.{ltb, leb, ◌==◌, if◌then◌else◌, add64, sub64, shl64, shr64, not64, u64_mod}

-- `vm_map_t`
pub record VmSegment : Type 0 where
  pub pm_base_addr : ℕ
  pub start : ℕ
  pub end : ℕ
  pub proximity_domain_idx : ℕ

-- The global variables that the division depends on. `proximity_domain_of` is
-- `smp_get_proximity_domain_idx`.
pub record Cpus : Type 0 where
  pub num_active_cpus : ℕ
  pub enable_numa : Bool
  pub chunk_index : ℕ → ℕ
  pub used_cpus_in_proximity_domain : ℕ → ℕ
  pub proximity_domain_of : ℕ → ℕ

pub record Chunk : Type 0 where
  pub start : ℕ
  pub end : ℕ

-- `sizeof(testword_t)`
abbrev pub word_size : ℕ
word_size = 8

pub round_down : ℕ → ℕ → ℕ
round_down value align_size = bit_and value (not64 (sub64 align_size 1))

pub round_up : ℕ → ℕ → ℕ
round_up value align_size = bit_and (add64 value (sub64 align_size 1)) (not64 (sub64 align_size 1))

pub prsg : ℕ → ℕ
prsg state =
    let a = bit_xor state (shl64 state 13) in
    let b = bit_xor a (shr64 a 7) in bit_xor b (shl64 b 17)

-- The size of a segment in bytes.
pub segment_bytes : VmSegment → ℕ
segment_bytes s = add64 (sub64 s.end s.start / word_size) 1 * word_size % u64_mod

-- The chunk with index `idx` of `n`.
pub nth_chunk : VmSegment → ℕ → ℕ → ℕ → Chunk
nth_chunk s n idx chunk_align =
    let chunk_size = round_down (segment_bytes s / n) chunk_align in
    let start = add64 s.start (chunk_size * idx % u64_mod) in
    let end = sub64 (add64 start chunk_size) word_size in
    record { start = start; end = if ltb s.end end then s.end else end }

-- `none` is the negative CPU number of a dummy run.
abbrev pub cpu_number : Option ℕ → ℕ
cpu_number none = 0
cpu_number (some n) = n

unfoldable pub calculate_chunk : Cpus → Option ℕ → VmSegment → ℕ → Chunk
calculate_chunk g my_cpu s chunk_align =
    let cpu = cpu_number my_cpu in
    if g.num_active_cpus == 1
    then record { start = s.start; end = s.end }
    else if g.enable_numa
    then (let domain = g.proximity_domain_of cpu in
        if domain == s.proximity_domain_idx
        then nth_chunk s (g.used_cpus_in_proximity_domain domain) (g.chunk_index cpu) chunk_align
        else record { start = 1; end = 0 })
    else nth_chunk s g.num_active_cpus (g.chunk_index cpu) chunk_align
