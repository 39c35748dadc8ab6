-- ===== src/Security/State.antt =====
-- rust/crates/storage-sqlite/src/lib.rs: the row of the write lock.
use codex_telegram_bridge.Prelude.{
  Bool, true, false, not, ◌&&◌, ◌||◌, if◌then◌else◌, Outcome, success, failure,
}
use codex_telegram_bridge.Prelude.Int.{
  ℤ, pos, ◌+ℤ◌, ltb_ℤ, leb_ℤ, is_negative, saturating_add, saturating_scale,
}
use codex_telegram_bridge.Ports.{PortError, adapter}

pub record TotpState : Type 0 where
  pub last_timecode : ℤ
  pub unlocked_until_ms : ℤ
  pub force_locked : Bool
  pub auth_epoch : ℤ
  pub failures : ℤ
  pub locked_until_ms : ℤ

unfoldable pub is_totp_unlocked : ℤ → TotpState → Bool
is_totp_unlocked now_ms s = not s.force_locked && ltb_ℤ now_ms s.unlocked_until_ms

-- The end of a lease that opens at `now_ms`.
unfoldable pub lease_end : ℤ → ℤ → ℤ
lease_end now_ms unlock_seconds = saturating_add now_ms (saturating_scale unlock_seconds 1000)

unfoldable pub accept_totp_timecode : ℤ → ℤ → ℤ → TotpState → Outcome PortError Bool × TotpState
unfolding lease_end
accept_totp_timecode timecode now_ms unlock_seconds s =
    if is_negative timecode || leb_ℤ unlock_seconds (pos 0)
    then (failure (adapter "invalid TOTP state input"), s)
    else if leb_ℤ timecode s.last_timecode
    then (success false, s)
    else (
      success true,
      record s {
        last_timecode = timecode;
        unlocked_until_ms = lease_end now_ms unlock_seconds;
        force_locked = false;
        failures = pos 0;
        locked_until_ms = pos 0;
      },
    )

unfoldable pub accept_totp_timecode_for_space : ℤ → TotpState → Outcome PortError Bool × TotpState
accept_totp_timecode_for_space timecode s =
    if is_negative timecode
    then (failure (adapter "invalid TOTP timecode"), s)
    else if leb_ℤ timecode s.last_timecode
    then (success false, s)
    else (
      success true,
      record s {
        last_timecode = timecode;
        unlocked_until_ms = pos 0;
        force_locked = false;
        failures = pos 0;
        locked_until_ms = pos 0;
      },
    )

unfoldable pub unlock_totp_after_recovery : ℤ → ℤ → TotpState → Outcome PortError Bool × TotpState
unfolding lease_end
unlock_totp_after_recovery now_ms unlock_seconds s =
    if leb_ℤ unlock_seconds (pos 0)
    then (failure (adapter "invalid TOTP unlock duration"), s)
    else (
      success true,
      record s {
        unlocked_until_ms = lease_end now_ms unlock_seconds;
        force_locked = false;
        failures = pos 0;
        locked_until_ms = pos 0;
      },
    )

unfoldable pub accept_recovery_for_space : TotpState → Outcome PortError Bool × TotpState
accept_recovery_for_space s =
    (success true, record s { force_locked = false; failures = pos 0; locked_until_ms = pos 0 })

-- The epoch is SQLite's own integer addition, which the model leaves unbounded.
unfoldable pub lock_totp : TotpState → TotpState
lock_totp s = record s {
  unlocked_until_ms = pos 0;
  force_locked = true;
  auth_epoch = s.auth_epoch +ℤ pos 1;
}

unfoldable pub lockout_end : ℤ → ℤ → ℤ
lockout_end failures now_ms =
    if leb_ℤ (pos 5) failures then saturating_add now_ms (pos 300000) else pos 0

unfoldable pub record_totp_failure : ℤ → TotpState → ℤ × TotpState
unfolding lockout_end
record_totp_failure now_ms s =
    if ltb_ℤ now_ms s.locked_until_ms
    then (s.failures, s)
    else let failures = saturating_add s.failures (pos 1) in
      (failures, record s { failures = failures; locked_until_ms = lockout_end failures now_ms })
