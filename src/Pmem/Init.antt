-- ===== src/Pmem/Init.antt =====
-- `pmem_init` of system/pmem.c as a whole.
use memtest86plus.Base.{
  ℕ, zero, suc, ◌+◌, ◌-◌, ◌%◌, ◌^◌, ◌≤◌, List, [], ◌∷◌, ◌≡◌, refl, arith, some, length, take, sub64,
  u64_mod,
}
use memtest86plus.Pmem.Map.{E820Entry, HaveWords, Segment, PmMap, e820_map_size}
use memtest86plus.Pmem.{init_pm_map, sort_pm_map, pmem_init}
use memtest86plus.Pmem.Sanitize.Disjoint.{IsChain, sanitize_disjoint}
use memtest86plus.Pmem.Sort.{IsSortedTo, sum, sort_pm_map_sorts}
use memtest86plus.Pmem.Segments.{pages, AreWords, init_pm_map-IsCounted}

pages-eq-sum : (ss : List Segment) → pages ss ≡ sum (λ s. sub64 s.end s.start) ss % u64_mod
pages-eq-sum [] = refl
pages-eq-sum (s ∷ ss) = omega (arith, pages-eq-sum ss)

HaveWords-take : (n : ℕ) (es : List E820Entry) → HaveWords es → HaveWords (take n es)
HaveWords-take zero es h = tt
HaveWords-take (suc n) [] h = tt
HaveWords-take (suc n) (e ∷ es) (w, h) = (w, HaveWords-take n es h)

chain_reaches : (lo hi : ℕ) (es : List E820Entry) → IsChain lo es hi → lo ≤ hi
chain_reaches lo hi [] c = c
chain_reaches lo hi (e ∷ es) (a, b, t, c) =
    omega (arith, a, chain_reaches (e.addr + e.size) hi es c)

HaveWords-of_chain : (lo : ℕ) (es : List E820Entry) → IsChain lo es (2 ^ 64) → HaveWords es
HaveWords-of_chain lo [] c = tt
HaveWords-of_chain lo (e ∷ es) (a, b, t, c) = (
  omega (arith, b, chain_reaches (e.addr + e.size) (2 ^ 64) es c),
  HaveWords-of_chain (e.addr + e.size) es c,
)

-- The pages of a segment, and the pages by which it ends before it starts.
abbrev pub held : Segment → ℕ
held s = s.end - s.start

abbrev pub missing : Segment → ℕ
missing s = s.start - s.end

-- A segment that ends before it starts takes pages off the sum of the machine.
pages-held :
    (ss : List Segment)
    → AreWords ss
    → (pages ss + sum missing ss) % u64_mod ≡ sum held ss % u64_mod
pages-held [] words = refl
pages-held (s ∷ ss) (start, end, words) = omega (arith, pages-held ss words, start, end)

-- For a map of 64-bit words, `pmem_init` returns, and the segments of its map are sorted by their
-- starts. `num_pm_pages` is the sum of end less start over the segments, as the machine computes it:
-- together with the pages by which segments end before they start it makes, modulo 2^64, the number of
-- the pages of the segments.
pub pmem_init_lem :
    (e820_map : List E820Entry)
    → HaveWords e820_map
    → (m : PmMap) × (pmem_init e820_map ≡ some m)
      × IsSortedTo m.segments (length m.segments)
      × (m.num_pm_pages ≡ pages m.segments)
      × ((m.num_pm_pages + sum missing m.segments) % u64_mod ≡ sum held m.segments % u64_mod)
unfolding pmem_init
pmem_init_lem e820_map words =
    let (es, done, chain, count) =
      sanitize_disjoint (take e820_map_size e820_map)
        (HaveWords-take e820_map_size e820_map words) in
    let m = init_pm_map es in
    let counted = init_pm_map-IsCounted es (HaveWords-of_chain 0 es chain) in
    let (sorted, size, same) = sort_pm_map_sorts m.segments in
    let fits : IsSortedTo (sort_pm_map m.segments) (length (sort_pm_map m.segments)) =
      λ a b l h. sorted a b l (omega (arith, size)) in
    let total : m.num_pm_pages ≡ pages (sort_pm_map m.segments) = omega (
      arith,
      counted.counted,
      pages-eq-sum m.segments,
      pages-eq-sum (sort_pm_map m.segments),
      same (λ s. sub64 s.end s.start),
    ) in
    let balanced : (m.num_pm_pages + sum missing (sort_pm_map m.segments)) % u64_mod
        ≡ sum held (sort_pm_map m.segments) % u64_mod =
      omega
        (arith, counted.counted, pages-held m.segments counted.words, same held, same missing) in
    (record m { segments = sort_pm_map m.segments }, rw done, fits, total, balanced)
