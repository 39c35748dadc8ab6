-- ===== src/Security/Tests.antt =====
-- The write lock's theorems at concrete states. The digest of the tests is 20 zero bytes, whose
-- code is "000000".
use codex_telegram_bridge.Prelude.{
  ℕ, arith, ◌≡◌, ◌≢◌, refl, true, false, Option, none, String, List, [], ◌∷◌, string_ord, success,
  is_blank, is_whitespace,
}
use codex_telegram_bridge.Prelude.Int.{
  pos, negsuc, ltb_ℤ, saturating_add, saturate, ◌+ℤ◌, div_euclid,
}
use codex_telegram_bridge.Security.State.{
  TotpState, accept_totp_timecode, accept_totp_timecode_for_space, record_totp_failure, lease_end,
}
use codex_telegram_bridge.Security.Leases.{
  TotpManager, lock, is_unlocked_for_space, space_unlock_remaining_ms, space_unlock_expires_at_ms,
}
use codex_telegram_bridge.Security.Hotp.{
  hotp, hmac_sha1, truncate_digest, to_be_bytes, zero_padded, padded, byte_xor, xor_bits, byte_at,
}
use codex_telegram_bridge.Security.Verify.{
  verify_and_unlock_inner, check_code, check_totp, conclude, matching, window, timecode_at,
  accept_timecode, has_totp_form,
}
use codex_telegram_bridge.Security.Replay.{
  SecurityCall, accept_for_space, lock_all, fail, apply_all, run_accept_once,
}
use codex_telegram_bridge.Security.Locking.{lock_revokes, lockout_lem}
use codex_telegram_bridge.Security.Unlocking.{verify_opens}

abbrev fresh : TotpState
fresh = record {
  last_timecode = negsuc 0;
  unlocked_until_ms = pos 0;
  force_locked = true;
  auth_epoch = pos 0;
  failures = pos 4;
  locked_until_ms = pos 0;
}

abbrev manager : TotpManager
manager = record {
  totp_state = fresh;
  recovery_codes = [];
  unlock_seconds = pos 600;
  leases = record { entries = ("s1", (pos 500, pos 0)) ∷ [] };
}

abbrev zero_digest : List ℕ → List ℕ
zero_digest bytes =
    0 ∷ 0 ∷ 0 ∷ 0 ∷ 0 ∷ 0 ∷ 0 ∷ 0 ∷ 0 ∷ 0 ∷ 0 ∷ 0 ∷ 0 ∷ 0 ∷ 0 ∷ 0 ∷ 0 ∷ 0 ∷ 0 ∷ 0 ∷ []

abbrev no_digest : String → List ℕ → Option String
no_digest salt code = none

abbrev calls : List SecurityCall
calls = fail (pos 10) ∷ lock_all ∷ accept_for_space (pos 5) ∷ []

accepts : (accept_totp_timecode_for_space (pos 7) fresh).0 ≡ success true
unfolding accept_totp_timecode_for_space
accepts = refl

run_accept_once_example :
    ((accept_totp_timecode_for_space
        (pos 6)
        (apply_all calls (accept_totp_timecode_for_space (pos 7) fresh).1)).0
      ≢ success true)
    × ((accept_totp_timecode
          (pos 6)
          (pos 99)
          (pos 600)
          (apply_all calls (accept_totp_timecode_for_space (pos 7) fresh).1)).0
        ≢ success true)
run_accept_once_example =
    run_accept_once (pos 7) (pos 6) (pos 99) (pos 600) fresh calls accepts (ground arith)

lock_revokes_example :
    ((is_unlocked_for_space "s1" (pos 9) (lock manager)).0 ≡ false)
    × ((space_unlock_remaining_ms "s1" (pos 9) (lock manager)).0 ≡ pos 0)
    × ((space_unlock_expires_at_ms "s1" (lock manager)).0 ≡ none)
lock_revokes_example = lock_revokes "s1" (pos 9) manager

lockout_lem_example :
    let m = record manager { totp_state = (record_totp_failure (pos 1000) fresh).1 } in
    verify_and_unlock_inner zero_digest no_digest (success []) "s1" "000000" (pos 2000) false m
    ≡ (success false, m)
unfolding saturating_add saturate ◌+ℤ◌
lockout_lem_example =
    lockout_lem zero_digest no_digest (success []) "s1" "000000" (pos 1000) (pos 2000) false manager
      (ground arith) (ground arith) (ground arith)

verifies :
    (verify_and_unlock_inner zero_digest no_digest
      (success [])
      "s1"
      "000000"
      (pos 60000)
      false
      manager).0
    ≡ success true
unfolding verify_and_unlock_inner check_code has_totp_form check_totp conclude matching window
    timecode_at accept_timecode accept_totp_timecode_for_space hotp hmac_sha1 truncate_digest
    to_be_bytes zero_padded padded byte_xor xor_bits byte_at saturating_add saturate ◌+ℤ◌ div_euclid
    is_blank is_whitespace
verifies = refl

verify_opens_example :
    (is_unlocked_for_space "s1"
      (pos 70000)
      (verify_and_unlock_inner zero_digest no_digest
        (success [])
        "s1"
        "000000"
        (pos 60000)
        false
        manager).1).0
    ≡ ltb_ℤ (pos 70000) (lease_end (pos 60000) (pos 600))
verify_opens_example =
    verify_opens zero_digest no_digest (success []) "s1" "000000" (pos 60000) (pos 70000) false
      manager verifies
