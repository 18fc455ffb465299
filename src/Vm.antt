-- ===== src/Vm.antt =====
-- system/x86/vmem.c: where the pages of physical memory stand in the 4 GB of virtual memory. The
-- third GB shows one GB of the memory above 2 GB at a time, the window. The page tables themselves
-- are not modelled.
pub mod Mapping
mod Examples
use memtest86plus.Base.{
  ℕ, ◌+◌, ◌-◌, ◌*◌, ◌/◌, ◌%◌, ◌^◌, Bool, true, false, ltb, leb, if◌then◌else◌, not,
}
use memtest86plus.Base.{add64, sub64, shl64, shr64}

-- `PAGE_C(1,GB)` and `PAGE_C(2,GB)`
abbrev pub pages_1_gb : ℕ
pages_1_gb = 0x40000

abbrev pub pages_2_gb : ℕ
pages_2_gb = 0x80000

-- `PAGE_C(64,GB)`
abbrev pub pages_64_gb : ℕ
pages_64_gb = 0x1000000

-- `VM_PINNED_SIZE` and `VM_WINDOW_SIZE`
abbrev pub vm_pinned_size : ℕ
vm_pinned_size = pages_2_gb

abbrev pub vm_window_size : ℕ
vm_window_size = pages_1_gb

unfoldable pub first_word_mapping : ℕ → ℕ
first_word_mapping page =
    if ltb page pages_2_gb then shl64 page 12 else shl64 (add64 pages_2_gb (page % pages_1_gb)) 12

unfoldable pub last_word_mapping : ℕ → ℕ → ℕ
unfolding first_word_mapping
last_word_mapping page word_size = add64 (first_word_mapping page) (sub64 4096 word_size)

-- `page_of`, with the value of `mapped_window`.
unfoldable pub page_of : ℕ → ℕ → ℕ
page_of mapped_window addr =
    let page = shr64 addr 12 in
    if leb pages_2_gb page then add64 (page % pages_1_gb) (shl64 mapped_window 18) else page

-- `map_window`: the new value of `mapped_window`, and whether the page can be mapped. `pae` and `lm`
-- are the flags of the CPU.
pub map_window : Bool → Bool → ℕ → ℕ → ℕ × Bool
map_window pae lm mapped_window start_page =
    let window = shr64 start_page 18 in
    if ltb window 2
    then (mapped_window, true)
    else if not pae
    then (if ltb window 4 then (window, true) else (mapped_window, false))
    else if not lm
    then (if leb pages_64_gb start_page then (mapped_window, false) else (window, true))
    else (window, true)
