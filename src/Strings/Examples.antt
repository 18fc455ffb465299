-- ===== src/Strings/Examples.antt =====
-- Tests of the model of lib/string.c, and the theorems at concrete inputs.
use memtest86plus.Base.{
  ℕ, arith, ◌==◌, ◌||◌, if◌then◌else◌, Option, some, ◌+◌, ◌%◌, ◌≤◌, ◌<◌, ◌≡◌, refl, ◌⊎◌,
}
use memtest86plus.Strings.{memmove, copy_down}
use memtest86plus.Strings.Search.{strstr, strlen, strlen_loop, strstr_loop, memcmp, memcmp_loop}
use memtest86plus.Strings.Search.First.{IsString, IsFirst, strstr_lem}
use memtest86plus.Strings.Move.{memmove_lem}

-- Byte 12 of a block of 4 bytes that moves up by 2, over itself.
overlap : memmove (λ a. a) 12 10 4 12 ≡ 10
unfolding memmove copy_down
overlap = refl

memmove_lem_example :
    ((k : ℕ) → k < 4 → memmove (λ a. a) 12 10 4 (12 + k) ≡ 10 + k)
    × ((x : ℕ) → (x < 12) ⊎ (12 + 4 ≤ x) → memmove (λ a. a) 12 10 4 x ≡ x)
memmove_lem_example = memmove_lem (λ a. a) 12 10 4

-- The string "bcab" at 1 and the string "ab" at 6.
abbrev two_strings : ℕ → ℕ
two_strings a = if (a == 5) || (a == 8) then 0 else 97 + a % 3

first_of_two : strstr two_strings 9 1 6 ≡ some (some 3)
unfolding strstr strlen strlen_loop strstr_loop memcmp memcmp_loop
first_of_two = refl

haystack-IsString : IsString two_strings 1 4
haystack-IsString = record { within = λ i h. ground arith; end = refl }

needle-IsString : IsString two_strings 6 2
needle-IsString = record { within = λ i h. ground arith; end = refl }

strstr_lem_example :
    (r : Option ℕ) × (strstr two_strings 9 1 6 ≡ some r) × IsFirst two_strings 1 6 2 0 3 r
strstr_lem_example =
    strstr_lem two_strings 9 1 4 6 2 haystack-IsString needle-IsString (omega arith) (omega arith)
