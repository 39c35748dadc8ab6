-- ===== src/Security/Verify.antt =====
-- rust/crates/cli/src/security.rs: the check of a code and the lease that it opens.
use codex_telegram_bridge.Prelude.{
  ℕ, Bool, true, false, ◌&&◌, if◌then◌else◌, Option, none, some, String, List, [], ◌∷◌, length,
  ◌==◌, nat_ord, string_ord, list_ord, is_blank, codes, trim, all, is_ascii_digit, Outcome, success,
  failure,
}
use codex_telegram_bridge.Prelude.Map.{insert}
use codex_telegram_bridge.Prelude.Int.{ℤ, pos, negsuc, ltb_ℤ, div_euclid, saturating_add}
use codex_telegram_bridge.Ports.{PortError}
use codex_telegram_bridge.Security.State.{
  lease_end, accept_totp_timecode, accept_totp_timecode_for_space, unlock_totp_after_recovery,
  accept_recovery_for_space, record_totp_failure,
}
use codex_telegram_bridge.Security.Recovery.{verify_recovery_code}
use codex_telegram_bridge.Security.Hotp.{hotp}
use codex_telegram_bridge.Security.Leases.{TotpManager}

pub data TotpError : Type 0 where
  secret_unavailable unsafe_secret invalid_code : TotpError
  state_error : PortError → TotpError

-- `map_err` on a store's answer.
abbrev pub as_state : Outcome PortError Bool → Outcome TotpError Bool
as_state (success b) = success b
as_state (failure e) = failure (state_error e)

unfoldable pub timecode_at : ℤ → ℤ
timecode_at now_ms = div_euclid (div_euclid now_ms 1000) 30

-- The timecodes of the window, in the order they are tried.
unfoldable pub window : ℤ → List ℤ
window current =
    saturating_add current (negsuc 0)
    ∷ saturating_add current (pos 0)
    ∷ saturating_add current (pos 1)
    ∷ []

unfoldable pub has_totp_form : List ℕ → Bool
has_totp_form value = length value == 6 && all is_ascii_digit value

unfoldable pub accept_timecode : Bool → ℤ → ℤ → TotpManager → Outcome PortError Bool × TotpManager
accept_timecode global timecode now_ms m =
    let (result, s) =
      if global
      then accept_totp_timecode timecode now_ms m.unlock_seconds m.totp_state
      else accept_totp_timecode_for_space timecode m.totp_state in
    (result, record m { totp_state = s })

unfoldable pub accept_recovery : Bool → ℤ → TotpManager → Outcome PortError Bool × TotpManager
accept_recovery global now_ms m =
    let (result, s) =
      if global
      then unlock_totp_after_recovery now_ms m.unlock_seconds m.totp_state
      else accept_recovery_for_space m.totp_state in
    (result, record m { totp_state = s })

unfoldable pub open_lease : String → ℤ → TotpManager → TotpManager
open_lease space_id now_ms m = record m {
  leases = insert space_id (lease_end now_ms m.unlock_seconds, m.totp_state.auth_epoch) m.leases;
}

-- What follows once it is known whether the code was accepted.
unfoldable pub conclude :
    String → ℤ → Outcome TotpError Bool × TotpManager → Outcome TotpError Bool × TotpManager
unfolding open_lease
conclude space_id now_ms (failure e, m) = (failure e, m)
conclude space_id now_ms (success true, m) = (success true, open_lease space_id now_ms m)
conclude space_id now_ms (success false, m) =
    (success false, record m { totp_state = (record_totp_failure now_ms m.totp_state).1 })

-- `secret` is what `read_secret` and the Base32 decoding give; `sha1` and `salted_digest` are the
-- digests.
module _ (sha1 : List ℕ → List ℕ) (salted_digest : String → List ℕ → Option String)
    (secret : Outcome TotpError (List ℕ)) where
  -- The first timecode of the window whose code this is.
  unfoldable pub matching : List ℕ → List ℕ → List ℤ → Option ℤ
  matching key value [] = none
  matching key value (negsuc n ∷ timecodes) = matching key value timecodes
  matching key value (pos n ∷ timecodes) =
      let rest = matching key value timecodes in
      if hotp sha1 key n == value then some (pos n) else rest

  unfoldable pub check_totp :
      List ℕ → List ℕ → Bool → ℤ → TotpManager → Outcome TotpError Bool × TotpManager
  unfolding matching window timecode_at accept_timecode
  check_totp key value global now_ms m = elim (matching key value (window (timecode_at now_ms))) [
    | none ↦ (success false, m)
    | some timecode ↦
        let (result, m') = accept_timecode global timecode now_ms m in (as_state result, m')
  ]

  unfoldable pub check_recovery :
      List ℕ → Bool → ℤ → TotpManager → Outcome TotpError Bool × TotpManager
  unfolding accept_recovery
  check_recovery value global now_ms m =
      let (found, rows) = verify_recovery_code salted_digest value now_ms m.recovery_codes in
      let m' = record m { recovery_codes = rows } in
      let (result, m'') = accept_recovery global now_ms m' in
      if found then (as_state result, m'') else (success false, m')

  unfoldable pub check_code : List ℕ → Bool → ℤ → TotpManager → Outcome TotpError Bool × TotpManager
  unfolding has_totp_form check_totp check_recovery
  check_code value global now_ms m =
      if has_totp_form value
      then elim secret [
        | failure e ↦ (failure e, m)
        | success key ↦ check_totp key value global now_ms m
      ]
      else check_recovery value global now_ms m

  unfoldable pub verify_and_unlock_inner :
      String → String → ℤ → Bool → TotpManager → Outcome TotpError Bool × TotpManager
  unfolding check_code conclude
  verify_and_unlock_inner space_id value now_ms global m =
      if is_blank space_id
      then (success false, m)
      else if ltb_ℤ now_ms m.totp_state.locked_until_ms
      then (success false, m)
      else conclude space_id now_ms (check_code (trim (codes value)) global now_ms m)

  unfoldable pub verify_and_unlock : String → ℤ → TotpManager → Outcome TotpError Bool × TotpManager
  unfolding verify_and_unlock_inner
  verify_and_unlock value now_ms m = verify_and_unlock_inner "__legacy__" value now_ms true m

  unfoldable pub verify_and_unlock_for_space :
      String → String → ℤ → TotpManager → Outcome TotpError Bool × TotpManager
  unfolding verify_and_unlock_inner
  verify_and_unlock_for_space space_id value now_ms m =
      verify_and_unlock_inner space_id value now_ms false m
