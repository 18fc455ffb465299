-- ===== src/Vm/Mapping.antt =====
-- The mapping of system/x86/vmem.c and its inverse.
use memtest86plus.Base.{ℕ, ◌+◌, ◌^◌, ◌<◌, Bool, true, ◌≡◌, arith}
use memtest86plus.Vm.{first_word_mapping, last_word_mapping, page_of, map_window}

-- Once `map_window` has mapped the window of a page, `page_of` takes every address within the page's
-- mapping back to the page.
pub page_of-first_word_mapping :
    (pae lm : Bool) (mapped_window page offset : ℕ)
    → page < 2 ^ 52
    → offset < 4096
    → (map_window pae lm mapped_window page).1 ≡ true
    → page_of (map_window pae lm mapped_window page).0 (first_word_mapping page + offset) ≡ page
unfolding page_of first_word_mapping map_window
page_of-first_word_mapping pae lm mapped_window page offset h k mapped = ground arith

-- The last word of a page is the one that ends where the next page starts, and `page_of` takes it
-- back to the page.
pub page_of-last_word_mapping :
    (pae lm : Bool) (mapped_window page : ℕ)
    → page < 2 ^ 52
    → (map_window pae lm mapped_window page).1 ≡ true
    → (last_word_mapping page 8 + 8 ≡ first_word_mapping page + 4096)
      × (page_of (map_window pae lm mapped_window page).0 (last_word_mapping page 8) ≡ page)
unfolding page_of last_word_mapping map_window
page_of-last_word_mapping pae lm mapped_window page h mapped = (ground arith, ground arith)

-- A CPU with PAE and long mode can map each window.
pub map_window-maps : (mapped_window page : ℕ) → (map_window true true mapped_window page).1 ≡ true
unfolding map_window
map_window-maps mapped_window page = ground arith
