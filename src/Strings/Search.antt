-- ===== src/Strings/Search.antt =====
-- lib/string.h and lib/string.c: the functions that read strings. A string in memory ends before the
-- first byte that is 0.
pub mod First
use memtest86plus.Base.{
  ℕ, zero, suc, ◌+◌, ◌-◌, ◌<◌, ◌≡◌, ◌≢◌, ltb, ◌==◌, if◌then◌else◌, Option, none, some, ◌>>=◌,
}

-- The loop of `memcmp` at `i`, with the rounds left. `none` is the result 0, and the first bytes that
-- differ stand for their difference.
unfoldable pub memcmp_loop : (ℕ → ℕ) → ℕ → ℕ → ℕ → ℕ → Option (ℕ × ℕ)
memcmp_loop m s1 s2 zero i = none
memcmp_loop m s1 s2 (suc left) i =
    let rest = memcmp_loop m s1 s2 left (i + 1) in
    if m (s1 + i) == m (s2 + i) then rest else some (m (s1 + i), m (s2 + i))

unfoldable pub memcmp : (ℕ → ℕ) → ℕ → ℕ → ℕ → Option (ℕ × ℕ)
memcmp m s1 s2 n = memcmp_loop m s1 s2 n 0

-- `strlen` from `s + len` on; `none` if the fuel does not reach the end of the string.
unfoldable pub strlen_loop : (ℕ → ℕ) → ℕ → ℕ → ℕ → Option ℕ
strlen_loop m s zero len = none
strlen_loop m s (suc fuel) len =
    let rest = strlen_loop m s fuel (len + 1) in if m (s + len) == 0 then some len else rest

unfoldable pub strlen : (ℕ → ℕ) → ℕ → ℕ → Option ℕ
strlen m fuel s = strlen_loop m s fuel 0

-- A round of `strstr`, with the result of `memcmp` and that of the later rounds.
abbrev pub strstr_round : Option (ℕ × ℕ) → ℕ → Option ℕ → Option ℕ
strstr_round none found rest = some found
strstr_round (some differ) found rest = rest

-- The loop of `strstr` at `idx`, with the rounds left. `none` is NULL.
unfoldable pub strstr_loop : (ℕ → ℕ) → ℕ → ℕ → ℕ → ℕ → ℕ → Option ℕ
strstr_loop m haystack needle needle_len zero idx = none
strstr_loop m haystack needle needle_len (suc left) idx =
    let rest = strstr_loop m haystack needle needle_len left (idx + 1) in
    strstr_round (memcmp m (haystack + idx) needle needle_len) (haystack + idx) rest

unfoldable pub strstr : (ℕ → ℕ) → ℕ → ℕ → ℕ → Option (Option ℕ)
strstr m fuel haystack needle = do
  haystack_len ← strlen m fuel haystack
  needle_len ← strlen m fuel needle
  some (
      if ltb haystack_len needle_len
      then none
      else strstr_loop m haystack needle needle_len (haystack_len - needle_len + 1) 0)
