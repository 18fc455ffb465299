-- ===== src/Base/Bytes.antt =====
-- Numbers in little-endian order in an array of bytes, as `memcpy` between them reads and writes them.
use Prim.Native.Nat.{ℕ, zero, suc, ◌+◌, ◌*◌, ◌/◌, ◌%◌, ◌^◌, ◌≤◌, ◌<◌}
use mathlib.Core.Path.{◌≡◌, refl, ◌∙◌}
use native.Mathlib.Nat.{pow-suc}
use native.Mathlib.Omega.{arith}
use memtest86plus.Base.Family.{update, update_self, update_ne}

abbrev pub Bytes : Type 0
Bytes = ℕ → ℕ

unfoldable pub get_le : ℕ → Bytes → ℕ → ℕ
get_le zero b at = 0
get_le (suc n) b at = b at + 256 * get_le n b (at + 1)

unfoldable pub put_le : ℕ → ℕ → Bytes → ℕ → Bytes
put_le zero v b at = b
put_le (suc n) v b at = put_le n (v / 256) (update b at (v % 256)) (at + 1)

pub put_le-below : (n v : ℕ) (b : Bytes) (at i : ℕ) → i < at → put_le n v b at i ≡ b i
unfolding put_le
put_le-below zero v b at i h = refl
put_le-below (suc n) v b at i h =
    put_le-below n (v / 256) (update b at (v % 256)) (at + 1) i (omega arith)
    ∙ update_ne b at (v % 256) i (λ e. omega arith)

pub put_le-above : (n v : ℕ) (b : Bytes) (at i : ℕ) → at + n ≤ i → put_le n v b at i ≡ b i
unfolding put_le
put_le-above zero v b at i h = refl
put_le-above (suc n) v b at i h =
    put_le-above n (v / 256) (update b at (v % 256)) (at + 1) i (omega arith)
    ∙ update_ne b at (v % 256) i (λ e. omega arith)

pub get_le-ext :
    (n : ℕ) (b c : Bytes) (at : ℕ)
    → ((i : ℕ) → at ≤ i → i < at + n → b i ≡ c i)
    → get_le n b at ≡ get_le n c at
unfolding get_le
get_le-ext zero b c at h = refl
get_le-ext (suc n) b c at h = omega (
  arith,
  h at (omega arith) (omega arith),
  get_le-ext n b c (at + 1) (λ i le l. h i (omega arith) (omega arith)),
)

pub get_le-put_le : (n v : ℕ) (b : Bytes) (at : ℕ) → v < 256 ^ n → get_le n (put_le n v b at) at ≡ v
unfolding get_le put_le
get_le-put_le zero v b at h = omega arith
get_le-put_le (suc n) v b at h =
    let b' = update b at (v % 256) in
    omega (
      arith,
      pow-suc 256 n,
      put_le-below n (v / 256) b' (at + 1) at (omega arith),
      update_self b at (v % 256),
      get_le-put_le n (v / 256) b' (at + 1) (omega (arith, pow-suc 256 n)),
    )

-- A number elsewhere is left alone.
pub get_le-put_le_apart :
    (n k v : ℕ) (b : Bytes) (at at' : ℕ)
    → (at' + k ≤ at)
    → get_le k (put_le n v b at) at' ≡ get_le k b at'
get_le-put_le_apart n k v b at at' h =
    get_le-ext k (put_le n v b at) b at' (λ i le l. put_le-below n v b at i (omega arith))

pub get_le-put_le_behind :
    (n k v : ℕ) (b : Bytes) (at at' : ℕ)
    → (at + n ≤ at')
    → get_le k (put_le n v b at) at' ≡ get_le k b at'
get_le-put_le_behind n k v b at at' h =
    get_le-ext k (put_le n v b at) b at' (λ i le l. put_le-above n v b at i (omega arith))

pub get_le-lt : (n : ℕ) (b : Bytes) (at : ℕ) → ((i : ℕ) → b i < 256) → get_le n b at < 256 ^ n
unfolding get_le
get_le-lt zero b at h = omega arith
get_le-lt (suc n) b at h = omega (arith, pow-suc 256 n, h at, get_le-lt n b (at + 1) h)
