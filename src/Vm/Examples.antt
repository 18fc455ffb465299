-- ===== src/Vm/Examples.antt =====
-- Tests of the model of system/x86/vmem.c, and the theorems at concrete inputs.
use memtest86plus.Base.{◌+◌, ◌≡◌, refl, arith, true}
use memtest86plus.Vm.{first_word_mapping, page_of, map_window}
use memtest86plus.Vm.Mapping.{page_of-first_word_mapping}

mapped : first_word_mapping 0x140001 ≡ 0x8000_1000
unfolding first_word_mapping
mapped = refl

page_of-first_word_mapping_example :
    page_of (map_window true true 2 0x140001).0 (first_word_mapping 0x140001 + 0x18) ≡ 0x140001
page_of-first_word_mapping_example =
    page_of-first_word_mapping true true 2 0x140001 0x18 (omega arith) (omega arith) window
  where
    window : (map_window true true 2 0x140001).1 ≡ true
    window = unfold map_window in refl
