-- ===== src/Deletions/Backoff.antt =====
-- rust/crates/storage-sqlite/src/lib.rs: the backoff of failed deletions.
use native.Mathlib.Omega.{pow_step}
use codex_telegram_bridge.Prelude.Int.{◌+ℤ◌, pos, int_ord}
use codex_telegram_bridge.Prelude.{
  ℕ, suc, ◌≡◌, leb, if◌then◌else◌, string_ord, nat_ord, pair_ord, option_ord, list_ord, zero, ◌*◌,
  ◌^◌, ◌≤◌, inl, inr, arith, Bool-cases, ap,
}
use codex_telegram_bridge.Deletions.Table.{backoff_ms}

pow_large : (n : ℕ) → 9 ≤ n → 512 ≤ 2 ^ n
pow_large zero h = absurd (omega arith)
pow_large (suc n) h = elim (Bool-cases (leb 9 n)) [
  | inl more ↦ omega (arith, pow_large n (ground arith), pow_step 2 n)
  | inr last ↦ omega (arith, pow_step 2 n, ap (λ k. 2 ^ k) {x = n} {y = 8} (ground arith))
]

-- `2^attempts` seconds, and five minutes at most.
abbrev capped_power : ℕ → ℕ
capped_power n = if leb 300000 (2 ^ n * 1000) then 300000 else 2 ^ n * 1000

next_attempt : (attempts : ℕ) → (pos attempts +ℤ pos 1) ≡ pos (suc attempts)
unfolding ◌+ℤ◌
next_attempt attempts = ground arith

-- The backoff before the attempt with this number is as many seconds as the power of two, five minutes
-- at most: the bound on the shift never shows.
pub backoff_ms_lem : (attempts : ℕ) → backoff_ms (pos attempts) ≡ pos (capped_power (suc attempts))
unfolding backoff_ms
backoff_ms_lem attempts = elim (Bool-cases (leb (suc attempts) 20)) [
  | inl small ↦ rw (backoff_ms, next_attempt attempts) (ground arith)
  | inr large ↦
      let far = pow_large (suc attempts) (ground arith) in
      let near = pow_large 20 (omega arith) in rw (backoff_ms, next_attempt attempts) (ground arith)
]
