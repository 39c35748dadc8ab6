-- ===== src/Security/Locking.antt =====
-- The lock and the lockout: rust/crates/storage-sqlite/src/lib.rs and
-- rust/crates/cli/src/security.rs.
use codex_telegram_bridge.Prelude.{
  inl, inr, Bool-cases, ◌==◌, string_ord, if◌then◌else◌, subst, sym, ℕ, ◌≡◌, refl, Bool, true,
  false, Option, none, some, String, List, arith, Outcome, success, is_blank, subst, if◌then◌else◌,
  sym, ◌==◌, Bool-cases, string_ord, inl,
}
use codex_telegram_bridge.Prelude.Map.{get, get-remove, remove}
use codex_telegram_bridge.Prelude.Int.{
  leb_ℤ, saturate, ◌+ℤ◌, ℤ, pos, ◌<ℤ◌, ◌≤ℤ◌, saturating_add, saturate, ◌+ℤ◌, leb_ℤ,
}
use codex_telegram_bridge.Security.State.{
  TotpState, is_totp_unlocked, lock_totp, record_totp_failure, lockout_end,
}
use codex_telegram_bridge.Security.Leases.{
  TotpManager, lock, lock_space, is_unlocked_for_space, check_lease, space_unlock_remaining_ms,
  space_unlock_expires_at_ms,
}
use codex_telegram_bridge.Security.Verify.{TotpError, verify_and_unlock_inner}

-- After `lock` nothing is unlocked: no Session and not the global lock, at no time; no time is left
-- and no end is given.
pub lock_revokes :
    (space_id : String) (now_ms : ℤ) (m : TotpManager)
    → ((is_unlocked_for_space space_id now_ms (lock m)).0 ≡ false)
      × ((space_unlock_remaining_ms space_id now_ms (lock m)).0 ≡ pos 0)
      × ((space_unlock_expires_at_ms space_id (lock m)).0 ≡ none)
unfolding lock lock_totp is_unlocked_for_space is_totp_unlocked space_unlock_remaining_ms
    space_unlock_expires_at_ms
lock_revokes space_id now_ms m = ground arith

checked_none :
    (space_id : String) (now_ms : ℤ) (o : Option (ℤ × ℤ)) (m m' : TotpManager)
    → m'.totp_state ≡ m.totp_state
    → (check_lease space_id now_ms o m').0 ≡ (check_lease space_id now_ms o m).0
unfolding check_lease
checked_none space_id now_ms none m m' e = refl
checked_none space_id now_ms (some lease) m m' e = ground arith

locked_check :
    (space_id other : String) (now_ms : ℤ) (m m' : TotpManager)
    → m'.totp_state ≡ m.totp_state
    → (check_lease other now_ms (get other (remove space_id m.leases)) m').0
      ≡ (if space_id == other then false else (check_lease other now_ms (get other m.leases) m).0)
unfolding check_lease
locked_check space_id other now_ms m m' e = elim (Bool-cases (space_id == other)) [
  | inl h ↦ rw (get-remove space_id other m.leases, h) refl
  | inr h ↦
      rw (get-remove space_id other m.leases, h)
        (checked_none other now_ms (get other m.leases) m m' e)
]

-- `lock_space` of a Session locks that Session and no other: the answers on the others stay.
pub lock_space_lem :
    (space_id other : String) (now_ms : ℤ) (m : TotpManager)
    → is_blank space_id ≡ false
    → (is_unlocked_for_space other now_ms (lock_space space_id m)).0
      ≡ (if space_id == other then false else (is_unlocked_for_space other now_ms m).0)
unfolding lock_space is_unlocked_for_space
lock_space_lem space_id other now_ms m h = ground (
  arith,
  locked_check space_id other now_ms m (record m { leases = remove space_id m.leases }),
  string_ord.eq_of_cmp space_id other,
)

five : (failures : ℤ) → pos 4 ≤ℤ failures → leb_ℤ (pos 5) (saturating_add failures (pos 1)) ≡ true
unfolding saturating_add saturate ◌+ℤ◌
five failures h = ground arith

fifth_failure :
    (now_ms : ℤ) (s : TotpState)
    → s.locked_until_ms ≤ℤ now_ms
    → pos 4 ≤ℤ s.failures
    → (record_totp_failure now_ms s).1.locked_until_ms ≡ saturating_add now_ms (pos 300000)
unfolding record_totp_failure lockout_end
fifth_failure now_ms s h four = ground (arith, five s.failures four)

module _ (sha1 : List ℕ → List ℕ) (salted_digest : String → List ℕ → Option String)
    (secret : Outcome TotpError (List ℕ)) where
  locked_out :
      (space_id value : String) (now_ms : ℤ) (global : Bool) (m : TotpManager)
      → now_ms <ℤ m.totp_state.locked_until_ms
      → verify_and_unlock_inner sha1 salted_digest secret space_id value now_ms global m
        ≡ (success false, m)
  unfolding verify_and_unlock_inner
  locked_out space_id value now_ms global m h = ground arith

  -- After a failure that follows at least four failures while no lockout runs, every code is refused
  -- and nothing changes until 300 seconds after the failure.
  pub lockout_lem :
      (space_id value : String) (then_ms now_ms : ℤ) (global : Bool) (m : TotpManager)
      → m.totp_state.locked_until_ms ≤ℤ then_ms
      → pos 4 ≤ℤ m.totp_state.failures
      → now_ms <ℤ saturating_add then_ms (pos 300000)
      → let m' = record m { totp_state = (record_totp_failure then_ms m.totp_state).1 } in
        verify_and_unlock_inner sha1 salted_digest secret space_id value now_ms global m'
        ≡ (success false, m')
  unfolding record_totp_failure lockout_end
  lockout_lem space_id value then_ms now_ms global m h four soon =
      locked_out space_id value now_ms global
        (record m { totp_state = (record_totp_failure then_ms m.totp_state).1 })
        (subst (λ t. now_ms <ℤ t) (sym (fifth_failure then_ms m.totp_state h four)) soon)
