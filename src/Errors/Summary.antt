-- ===== src/Errors/Summary.antt =====
-- The summary of app/error.c against a description of it by the list of the errors.
use memtest86plus.Base.{
  ℕ, ◌+◌, ◌*◌, ◌<◌, min, max, bit_and, bit_xor, List, [], ◌∷◌, ◌≡◌, refl, ◌∙◌, ap, arith,
  if◌then◌else◌, u64_max,
}
use memtest86plus.Base.Bits.{bit, bit-bit_or, bit-zero, bit_and-le_right}
use memtest86plus.Vm.{page_of}
use memtest86plus.Errors.{
  PageOffset, ErrorInfo, first_info, bits_of, update_min, update_max, update_error_info, Fault,
  is_bios_address,
}

-- The largest value over the list, and the smallest, with the value for the empty list.
abbrev pub greatest : (Fault → ℕ) → List Fault → ℕ
greatest f [] = 0
greatest f (x ∷ xs) = max (f x) (greatest f xs)

abbrev pub least : (Fault → ℕ) → ℕ → List Fault → ℕ
least f start [] = start
least f start (x ∷ xs) = min (f x) (least f start xs)

-- A page and an offset as one number.
abbrev pub position : PageOffset → ℕ
position p = p.page * 4096 + p.offset

abbrev pub xor_of : Fault → ℕ
xor_of f = bit_xor f.good f.bad

abbrev pub spot : Fault → PageOffset
spot f = record { page = page_of f.window f.addr; offset = bit_and f.addr 0xfff }

-- The errors that are taken into account: the given ones and the new one, unless it is at an address
-- that the BIOS uses.
abbrev pub take_in : Fault → List Fault → List Fault
take_in f faults = if is_bios_address f.addr then faults else f ∷ faults

update_min-position :
    (m : PageOffset) (page offset : ℕ)
    → m.offset < 4096
    → offset < 4096
    → (position (update_min m page offset).0 ≡ min (page * 4096 + offset) (position m))
      × ((update_min m page offset).0.offset < 4096)
unfolding update_min
update_min-position m page offset h k = ground arith

update_max-position :
    (m : PageOffset) (page offset : ℕ)
    → m.offset < 4096
    → offset < 4096
    → (position (update_max m page offset).0 ≡ max (page * 4096 + offset) (position m))
      × ((update_max m page offset).0.offset < 4096)
unfolding update_max
update_max-position m page offset h k = ground arith

-- What the variable `error_info` says of the errors.
pub record Summarises (faults : List Fault) (info : ErrorInfo) : Type 0 where
  pub lowest :
      position info.min_addr ≡ least (λ f. position (spot f)) (u64_max * 4096 + 4095) faults
  pub highest : position info.max_addr ≡ greatest (λ f. position (spot f)) faults
  pub bad : (i : ℕ) → bit i info.bad_bits ≡ greatest (λ f. bit i (xor_of f)) faults
  pub fewest : info.min_bits ≡ least (λ f. bits_of (xor_of f)) 255 faults
  pub most : info.max_bits ≡ greatest (λ f. bits_of (xor_of f)) faults
  pub low_offset : info.min_addr.offset < 4096
  pub high_offset : info.max_addr.offset < 4096

pub first_info-Summarises : Summarises [] first_info
first_info-Summarises = record {
  lowest = refl;
  highest = refl;
  bad = bit-zero;
  fewest = refl;
  most = refl;
  low_offset = omega arith;
  high_offset = omega arith;
}

-- Taking an error into account keeps the summary true.
module _ (f : Fault) {faults : List Fault} {info : ErrorInfo} (s : Summarises faults info)
    (count : ℕ) where
  abbrev next : ErrorInfo
  next = (update_error_info count info (spot f).page (spot f).offset f.addr (xor_of f)).0

  spot-offset : (spot f).offset < 4096
  spot-offset = omega (arith, bit_and-le_right f.addr 4095)

  next-min_bits : next.min_bits ≡ min (bits_of (xor_of f)) info.min_bits
  unfolding update_error_info
  next-min_bits = ground arith

  next-max_bits : next.max_bits ≡ max (bits_of (xor_of f)) info.max_bits
  unfolding update_error_info
  next-max_bits = ground arith

  next-bad : (i : ℕ) → bit i next.bad_bits ≡ max (bit i info.bad_bits) (bit i (xor_of f))
  unfolding update_error_info
  next-bad i = bit-bit_or i info.bad_bits (xor_of f)

  next-min_addr :
      (position next.min_addr ≡ min (position (spot f)) (position info.min_addr))
      × (next.min_addr.offset < 4096)
  unfolding update_error_info
  next-min_addr =
      update_min-position info.min_addr (spot f).page (spot f).offset s.low_offset spot-offset

  next-max_addr :
      (position next.max_addr ≡ max (position (spot f)) (position info.max_addr))
      × (next.max_addr.offset < 4096)
  unfolding update_error_info
  next-max_addr =
      update_max-position info.max_addr (spot f).page (spot f).offset s.high_offset spot-offset

  pub update_error_info-Summarises : Summarises (f ∷ faults) next
  update_error_info-Summarises = record {
    lowest = next-min_addr.0 ∙ ap (min (position (spot f))) s.lowest;
    highest = next-max_addr.0 ∙ ap (max (position (spot f))) s.highest;
    bad = λ i. omega (arith, next-bad i, s.bad i);
    fewest = next-min_bits ∙ ap (min (bits_of (xor_of f))) s.fewest;
    most = next-max_bits ∙ ap (max (bits_of (xor_of f))) s.most;
    low_offset = next-min_addr.1;
    high_offset = next-max_addr.1;
  }
