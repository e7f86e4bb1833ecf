-- ===== src/StatusFormat/Percent.antt =====
-- `progress_percent` of status_format.cpp.
use native.Mathlib.Nat.{mod-le, mod-eq_of_lt}
use localsend_handheld.Prelude.{
  ℕ, ◌*◌, ◌/◌, ◌%◌, ◌≤◌, ◌<◌, ◌≡◌, ◌↔◌, min, arith, Bool-cases, leb, inl, inr,
}
use localsend_handheld.Transfer.{TransferItem, u64_mod}
use localsend_handheld.StatusFormat.{progress_percent}

div_le : (x n k : ℕ) → x ≤ k * n → 0 < n → x / n ≤ k
div_le x n k h p = grind arith

div_lt : (x n k : ℕ) → x < k * n → x / n < k
div_lt x n k h = grind arith

div_exact : (n k : ℕ) → 0 < n → k * n / n ≡ k
div_exact n k p = grind arith

-- The percentage is at most 100, also where the product wraps.
progress_percent_le : (item : TransferItem) → progress_percent item ≤ 100
unfolding progress_percent
progress_percent_le item =
    let clamped = min item.bytes_transferred item.size in
    let capped =
      div_le (clamped * 100 % u64_mod) item.size 100
        (omega (arith, mod-le (clamped * 100) u64_mod)) in
    ground (arith, capped)

-- For a file with content whose size times 100 fits 64 bits the percentage is 100 exactly when all
-- bytes are there.
progress_percent_iff :
    (item : TransferItem)
    → 0 < item.size
    → item.size * 100 < u64_mod
    → (progress_percent item ≡ 100) ↔ (item.size ≤ item.bytes_transferred)
unfolding progress_percent
progress_percent_iff item p fits = elim (Bool-cases (leb item.size item.bytes_transferred)) [
  | inl full ↦
      let same : min item.bytes_transferred item.size * 100 ≡ 100 * item.size = ground arith in
      let fit : (100 * item.size) % u64_mod ≡ 100 * item.size = mod-eq_of_lt (omega arith) in
      let q = div_exact item.size 100 p in (λ e. ground arith, λ h. ground arith)
  | inr partial ↦
      let fit : (min item.bytes_transferred item.size * 100) % u64_mod
          ≡ min item.bytes_transferred item.size * 100 =
        mod-eq_of_lt (ground arith) in
      let q = div_lt (min item.bytes_transferred item.size * 100) item.size 100 (ground arith) in
      (λ e. ground arith, λ h. ground arith)
]
