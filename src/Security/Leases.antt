-- ===== src/Security/Leases.antt =====
-- rust/crates/cli/src/security.rs: the TotpManager and its leases.
use codex_telegram_bridge.Prelude.{
  Bool, true, false, not, ◌||◌, if◌then◌else◌, Option, none, some, String, List, ◌==◌, string_ord,
  is_blank,
}
use codex_telegram_bridge.Prelude.Map.{Map, empty, get, remove}
use codex_telegram_bridge.Prelude.Int.{ℤ, pos, int_ord, leb_ℤ, max_ℤ, saturating_sub}
use codex_telegram_bridge.Security.State.{TotpState, is_totp_unlocked, lock_totp}
use codex_telegram_bridge.Security.Recovery.{RecoveryCode}

-- The manager with the part of the store that it uses. A lease is its end and its epoch.
pub record TotpManager : Type 0 where
  pub totp_state : TotpState
  pub recovery_codes : List RecoveryCode
  pub unlock_seconds : ℤ
  pub leases : Map String (ℤ × ℤ)

-- `lock` of the manager.
unfoldable pub lock : TotpManager → TotpManager
lock m = record m { leases = empty; totp_state = lock_totp m.totp_state }

unfoldable pub lock_space : String → TotpManager → TotpManager
lock_space space_id m =
    if is_blank space_id then m else record m { leases = remove space_id m.leases }

-- A lease holds when its epoch is the store's and its end is to come.
abbrev pub is_live : ℤ × ℤ → ℤ → ℤ → Bool
is_live (unlocked_until_ms, epoch) auth_epoch now_ms =
    not (not (epoch == auth_epoch) || leb_ℤ unlocked_until_ms now_ms)

-- A lease that does not hold is dropped.
unfoldable pub check_lease : String → ℤ → Option (ℤ × ℤ) → TotpManager → Bool × TotpManager
check_lease space_id now_ms none m = (false, m)
check_lease space_id now_ms (some lease) m =
    if is_live lease m.totp_state.auth_epoch now_ms
    then (true, m)
    else (false, record m { leases = remove space_id m.leases })

unfoldable pub is_unlocked_for_space : String → ℤ → TotpManager → Bool × TotpManager
unfolding check_lease
is_unlocked_for_space space_id now_ms m =
    if is_blank space_id
    then (is_totp_unlocked now_ms m.totp_state, m)
    else if m.totp_state.force_locked
    then (false, m)
    else check_lease space_id now_ms (get space_id m.leases) m

unfoldable pub remaining_lease : String → ℤ → Option (ℤ × ℤ) → TotpManager → ℤ × TotpManager
remaining_lease space_id now_ms none m = (pos 0, m)
remaining_lease space_id now_ms (some lease) m =
    if is_live lease m.totp_state.auth_epoch now_ms
    then (saturating_sub lease.0 now_ms, m)
    else (pos 0, record m { leases = remove space_id m.leases })

unfoldable pub space_unlock_remaining_ms : String → ℤ → TotpManager → ℤ × TotpManager
unfolding remaining_lease
space_unlock_remaining_ms space_id now_ms m =
    if is_blank space_id
    then (
      max_ℤ
          (if m.totp_state.force_locked
            then pos 0
            else saturating_sub m.totp_state.unlocked_until_ms now_ms)
          (pos 0),
      m,
    )
    else if m.totp_state.force_locked
    then (pos 0, m)
    else remaining_lease space_id now_ms (get space_id m.leases) m

-- An end that has passed is given all the same.
unfoldable pub lease_expiry : String → Option (ℤ × ℤ) → TotpManager → Option ℤ × TotpManager
lease_expiry space_id none m = (none, m)
lease_expiry space_id (some (unlocked_until_ms, epoch)) m =
    if not (epoch == m.totp_state.auth_epoch)
    then (none, record m { leases = remove space_id m.leases })
    else (some unlocked_until_ms, m)

unfoldable pub space_unlock_expires_at_ms : String → TotpManager → Option ℤ × TotpManager
unfolding lease_expiry
space_unlock_expires_at_ms space_id m =
    if is_blank space_id
    then (if m.totp_state.force_locked then none else some m.totp_state.unlocked_until_ms, m)
    else if m.totp_state.force_locked
    then (none, m)
    else lease_expiry space_id (get space_id m.leases) m
