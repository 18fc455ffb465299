-- ===== src/Strings.antt =====
-- lib/string.c: the functions that move bytes. A memory is a function from addresses to bytes, and
-- the blocks are taken to end within the address space.
pub mod Move
pub mod Search
mod Examples
use memtest86plus.Base.{ℕ, zero, suc, ◌+◌, ltb, ◌==◌, ◌%◌, if◌then◌else◌}

abbrev pub store : (ℕ → ℕ) → ℕ → ℕ → ℕ → ℕ
store m a v x = if x == a then v else m x

-- The upward loop of `memmove` at `i`, with the rounds left.
pub copy_up : (ℕ → ℕ) → ℕ → ℕ → ℕ → ℕ → ℕ → ℕ
copy_up m d s zero i = m
copy_up m d s (suc left) i = copy_up (store m (d + i) (m (s + i))) d s left (i + 1)

-- The downward loop of `memmove`, from behind `i`.
pub copy_down : (ℕ → ℕ) → ℕ → ℕ → ℕ → ℕ → ℕ
copy_down m d s zero = m
copy_down m d s (suc i) = copy_down (store m (d + i) (m (s + i))) d s i

pub memmove : (ℕ → ℕ) → ℕ → ℕ → ℕ → ℕ → ℕ
memmove m dest src n =
    if ltb 0 n
    then (if ltb dest src
        then copy_up m dest src n 0
        else if ltb src dest
        then copy_down m dest src n
        else m)
    else m

pub memset : (ℕ → ℕ) → ℕ → ℕ → ℕ → ℕ → ℕ
memset m ptr val zero = m
memset m ptr val (suc len) = memset (store m ptr (val % 256)) (ptr + 1) val len
