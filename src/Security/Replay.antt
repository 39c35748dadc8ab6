-- ===== src/Security/Replay.antt =====
-- rust/crates/storage-sqlite/src/lib.rs: a timecode counts once, whatever is called in between.
use codex_telegram_bridge.Prelude.{◌≡◌, ◌≢◌, true, List, [], ◌∷◌, arith, success}
use codex_telegram_bridge.Prelude.Int.{ℤ, ◌≤ℤ◌}
use codex_telegram_bridge.Security.State.{
  TotpState, accept_totp_timecode, accept_totp_timecode_for_space, unlock_totp_after_recovery,
  accept_recovery_for_space, lock_totp, record_totp_failure,
}

-- The calls that write the row.
pub data SecurityCall : Type 0 where
  -- timecode, now, unlock seconds
  accept : ℤ → ℤ → ℤ → SecurityCall
  accept_for_space : ℤ → SecurityCall
  recover : ℤ → ℤ → SecurityCall
  recover_for_space : SecurityCall
  lock_all : SecurityCall
  fail : ℤ → SecurityCall

unfoldable pub apply : SecurityCall → TotpState → TotpState
apply (accept timecode now_ms unlock_seconds) s =
    (accept_totp_timecode timecode now_ms unlock_seconds s).1
apply (accept_for_space timecode) s = (accept_totp_timecode_for_space timecode s).1
apply (recover now_ms unlock_seconds) s = (unlock_totp_after_recovery now_ms unlock_seconds s).1
apply recover_for_space s = (accept_recovery_for_space s).1
apply lock_all s = lock_totp s
apply (fail now_ms) s = (record_totp_failure now_ms s).1

unfoldable pub apply_all : List SecurityCall → TotpState → TotpState
unfolding apply
apply_all [] s = s
apply_all (c ∷ cs) s = apply_all cs (apply c s)

apply-monotone : (c : SecurityCall) (s : TotpState) → s.last_timecode ≤ℤ (apply c s).last_timecode
unfolding apply accept_totp_timecode accept_totp_timecode_for_space unlock_totp_after_recovery
    accept_recovery_for_space lock_totp record_totp_failure
apply-monotone (accept timecode now_ms unlock_seconds) s = ground arith
apply-monotone (accept_for_space timecode) s = ground arith
apply-monotone (recover now_ms unlock_seconds) s = ground arith
apply-monotone recover_for_space s = ground arith
apply-monotone lock_all s = ground arith
apply-monotone (fail now_ms) s = ground arith

-- No call takes the last accepted timecode back.
pub apply_all-monotone :
    (cs : List SecurityCall) (s : TotpState) → s.last_timecode ≤ℤ (apply_all cs s).last_timecode
unfolding apply_all
apply_all-monotone [] s = ground arith
apply_all-monotone (c ∷ cs) s =
    ground (arith, apply-monotone c s, apply_all-monotone cs (apply c s))

accepted_last :
    (timecode : ℤ) (s : TotpState)
    → (accept_totp_timecode_for_space timecode s).0 ≡ success true
    → (accept_totp_timecode_for_space timecode s).1.last_timecode ≡ timecode
unfolding accept_totp_timecode_for_space
accepted_last timecode s h = ground arith

old_refused :
    (timecode : ℤ) (s : TotpState)
    → timecode ≤ℤ s.last_timecode
    → (accept_totp_timecode_for_space timecode s).0 ≢ success true
unfolding accept_totp_timecode_for_space
old_refused timecode s h e = ground arith

old_refused_global :
    (timecode now_ms unlock_seconds : ℤ) (s : TotpState)
    → timecode ≤ℤ s.last_timecode
    → (accept_totp_timecode timecode now_ms unlock_seconds s).0 ≢ success true
unfolding accept_totp_timecode
old_refused_global timecode now_ms unlock_seconds s h e = ground arith

-- A timecode is accepted once: when a Session's check accepted it, then after any further calls
-- neither a Session's check nor the global one accepts it, or an earlier one, again.
pub run_accept_once :
    (timecode earlier now_ms unlock_seconds : ℤ) (s : TotpState) (cs : List SecurityCall)
    → (accept_totp_timecode_for_space timecode s).0 ≡ success true
    → earlier ≤ℤ timecode
    → ((accept_totp_timecode_for_space earlier
          (apply_all cs (accept_totp_timecode_for_space timecode s).1)).0
        ≢ success true)
      × ((accept_totp_timecode earlier now_ms unlock_seconds
            (apply_all cs (accept_totp_timecode_for_space timecode s).1)).0
          ≢ success true)
run_accept_once timecode earlier now_ms unlock_seconds s cs h le =
    let s' = (accept_totp_timecode_for_space timecode s).1 in
    let le' : earlier ≤ℤ (apply_all cs s').last_timecode =
      ground (arith, apply_all-monotone cs s', accepted_last timecode s h) in
    (
      old_refused earlier (apply_all cs s') le',
      old_refused_global earlier now_ms unlock_seconds (apply_all cs s') le',
    )
