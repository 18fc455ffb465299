-- ===== src/Chunk/Examples.antt =====
-- Tests of the model of tests/test_helper.c, and the theorems at concrete inputs.
use memtest86plus.Base.{◌+◌, ◌*◌, ◌^◌, ◌≤◌, ◌<◌, ◌≡◌, refl, arith, some, false}
use memtest86plus.Chunk.{VmSegment, Cpus, round_down, segment_bytes, nth_chunk, calculate_chunk}
use memtest86plus.Chunk.Share.{IsSegment, share, calculate_chunk_lem}

-- 512 words for three CPUs: two words are left over.
abbrev page : VmSegment
page = record { pm_base_addr = 1; start = 0x1000; end = 0x1ff8; proximity_domain_idx = 0 }

abbrev three_cpus : Cpus
three_cpus = record {
  num_active_cpus = 3;
  enable_numa = false;
  chunk_index = λ cpu. cpu;
  used_cpus_in_proximity_domain = λ d. 3;
  proximity_domain_of = λ cpu. 0;
}

last_chunk : calculate_chunk three_cpus (some 2) page 8 ≡ record { start = 0x1aa0; end = 0x1fe8 }
unfolding calculate_chunk nth_chunk segment_bytes round_down
last_chunk = refl

page-IsSegment : IsSegment page
page-IsSegment = omega arith

share-page : 8 ≤ share page 3 3
unfolding round_down segment_bytes
share-page = omega arith

calculate_chunk_lem_example :
    let size = share page 3 3 in
    let chunk = calculate_chunk three_cpus (some 2) page (2 ^ 3) in
    (chunk.start ≡ 0x1000 + size * 2)
    × (chunk.end + 8 ≡ chunk.start + size)
    × (chunk.end + 8 ≤ 0x1000 + size * 3)
    × (0x1000 + size * 3 ≤ 0x1ff8 + 8)
    × (0x1ff8 + 8 < 0x1000 + size * 3 + 3 * 2 ^ 3)
calculate_chunk_lem_example =
    calculate_chunk_lem three_cpus page 2 3 page-IsSegment (omega arith) refl (omega arith)
      (omega arith) share-page
