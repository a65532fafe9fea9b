-- ===== src/Prelude/Products.antt =====
-- Arrays of equal elements, in bytes.
use Prim.Native.Nat.{ℕ, ◌+◌, ◌-◌, ◌*◌, ◌≤◌, ◌<◌}
use mathlib.Core.Path.{◌≡◌, ap}
use native.Mathlib.Omega.{arith}

mul_distrib : (a b c : ℕ) → a * (b + c) ≡ a * b + a * c
mul_distrib a b c = omega arith

-- The elements before an index and those from it on.
pub split_array : (elem k n : ℕ) → k < n → elem * k + elem * (n - k) ≡ elem * n
split_array elem k n h =
    let e : k + (n - k) ≡ n = omega arith in
    omega (arith, mul_distrib elem k (n - k), ap (λ m. elem * m) e)

pub one_element : (elem k n : ℕ) → k < n → elem * k + elem ≤ elem * n
one_element elem k n h = grind arith

pub one_left : (elem k n : ℕ) → k < n → elem ≤ elem * (n - k)
one_left elem k n h = omega (arith, one_element elem k n h, split_array elem k n h)

pub positive_product : (a b : ℕ) → 0 < a → 0 < b → 0 < a * b
positive_product a b h k = grind arith
