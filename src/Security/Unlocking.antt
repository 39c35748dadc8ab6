-- ===== src/Security/Unlocking.antt =====
-- rust/crates/cli/src/security.rs: what a successful check opens, and what it leaves alone.
use codex_telegram_bridge.Prelude.{
  string_ord, trim, codes, inl, inr, sym, ℕ, ◌≡◌, refl, Bool, true, false, Option, String, List,
  arith, Outcome, success, failure, is_blank, Option-cases, Bool-cases, inl, inr,
}
use codex_telegram_bridge.Prelude.Map.{get-insert_self}
use codex_telegram_bridge.Prelude.Int.{ltb_ℤ, ℤ, ltb_ℤ}
use codex_telegram_bridge.Security.State.{
  accept_totp_timecode, accept_totp_timecode_for_space, unlock_totp_after_recovery,
  accept_recovery_for_space, lease_end,
}
use codex_telegram_bridge.Security.Leases.{TotpManager, is_unlocked_for_space, check_lease}
use codex_telegram_bridge.Security.Recovery.{verify_recovery_code}
use codex_telegram_bridge.Security.Verify.{
  has_totp_form, TotpError, as_state, conclude, open_lease, check_code, check_totp, check_recovery,
  accept_timecode, accept_recovery, matching, window, timecode_at, verify_and_unlock_inner,
}

-- A check that accepts leaves the write lock off, and never changes how long a lease lasts.
Opens : TotpManager → Outcome TotpError Bool × TotpManager → Type 0
Opens m (result, m') =
    result ≡ success true
    → (m'.totp_state.force_locked ≡ false) × (m'.unlock_seconds ≡ m.unlock_seconds)

accept_timecode-Opens :
    (global : Bool) (timecode now_ms : ℤ) (m : TotpManager)
    → let (result, m') = accept_timecode global timecode now_ms m in Opens m (as_state result, m')
unfolding Opens accept_timecode accept_totp_timecode accept_totp_timecode_for_space
accept_timecode-Opens true timecode now_ms m h = ground arith
accept_timecode-Opens false timecode now_ms m h = ground arith

accept_recovery-Opens :
    (global : Bool) (now_ms : ℤ) (m : TotpManager)
    → let (result, m') = accept_recovery global now_ms m in Opens m (as_state result, m')
unfolding Opens accept_recovery unlock_totp_after_recovery accept_recovery_for_space
accept_recovery-Opens true now_ms m h = ground arith
accept_recovery-Opens false now_ms m h = ground arith

opened :
    (space_id : String) (now_ms later_ms : ℤ) (m : TotpManager)
    → is_blank space_id ≡ false
    → m.totp_state.force_locked ≡ false
    → (is_unlocked_for_space space_id later_ms (open_lease space_id now_ms m)).0
      ≡ ltb_ℤ later_ms (lease_end now_ms m.unlock_seconds)
unfolding is_unlocked_for_space open_lease check_lease
opened space_id now_ms later_ms m h f = ground (
  arith,
  get-insert_self space_id (lease_end now_ms m.unlock_seconds, m.totp_state.auth_epoch) m.leases,
)

concluded :
    (space_id : String) (now_ms later_ms : ℤ) (m : TotpManager)
    (c : Outcome TotpError Bool × TotpManager)
    → is_blank space_id ≡ false
    → Opens m c
    → (conclude space_id now_ms c).0 ≡ success true
    → (is_unlocked_for_space space_id later_ms (conclude space_id now_ms c).1).0
      ≡ ltb_ℤ later_ms (lease_end now_ms m.unlock_seconds)
unfolding conclude Opens
concluded space_id now_ms later_ms m (failure e, m') blank opens h = cc
concluded space_id now_ms later_ms m (success false, m') blank opens h = cc
concluded space_id now_ms later_ms m (success true, m') blank opens h =
    rw (sym (opens refl).1) (opened space_id now_ms later_ms m' blank (opens refl).0)

module _ (sha1 : List ℕ → List ℕ) (salted_digest : String → List ℕ → Option String)
    (secret : Outcome TotpError (List ℕ)) where
  check_totp-Opens :
      (key value : List ℕ) (global : Bool) (now_ms : ℤ) (m : TotpManager)
      → Opens m (check_totp sha1 salted_digest secret key value global now_ms m)
  unfolding Opens check_totp
  check_totp-Opens key value global now_ms m =
      elim (Option-cases
        (matching sha1 salted_digest secret key value (window (timecode_at now_ms)))) [
          | inl e ↦ rw (e, check_totp) (λ h. ground arith)
          | inr (t, e) ↦ rw (e, check_totp) (accept_timecode-Opens global t now_ms m)
        ]

  check_recovery-Opens :
      (value : List ℕ) (global : Bool) (now_ms : ℤ) (m : TotpManager)
      → Opens m (check_recovery sha1 salted_digest secret value global now_ms m)
  unfolding Opens check_recovery
  check_recovery-Opens value global now_ms m =
      let found = verify_recovery_code salted_digest value now_ms m.recovery_codes in
      elim (Bool-cases found.0) [
        | inl e ↦ rw e (accept_recovery-Opens global now_ms (record m { recovery_codes = found.1 }))
        | inr e ↦ rw e (λ h. ground arith)
      ]

module _ (sha1 : List ℕ → List ℕ) (salted_digest : String → List ℕ → Option String) where
  check_code-Opens :
      (secret : Outcome TotpError (List ℕ)) (value : List ℕ) (global : Bool) (now_ms : ℤ)
      (m : TotpManager)
      → Opens m (check_code sha1 salted_digest secret value global now_ms m)
  unfolding check_code Opens
  check_code-Opens (failure e) value global now_ms m = elim (Bool-cases (has_totp_form value)) [
    | inl h ↦ rw h (λ t. ground arith)
    | inr h ↦ rw h (check_recovery-Opens sha1 salted_digest (failure e) value global now_ms m)
  ]
  check_code-Opens (success key) value global now_ms m = elim (Bool-cases (has_totp_form value)) [
    | inl h ↦ rw h (check_totp-Opens sha1 salted_digest (success key) key value global now_ms m)
    | inr h ↦ rw h (check_recovery-Opens sha1 salted_digest (success key) value global now_ms m)
  ]

  -- A check that succeeds opens the Session's lease for `unlock_seconds`: at every moment the
  -- Session is then unlocked just when that end is still to come.
  pub verify_opens :
      (secret : Outcome TotpError (List ℕ)) (space_id value : String) (now_ms later_ms : ℤ)
      (global : Bool) (m : TotpManager)
      → (verify_and_unlock_inner sha1 salted_digest secret space_id value now_ms global m).0
        ≡ success true
      → (is_unlocked_for_space space_id later_ms
          (verify_and_unlock_inner sha1 salted_digest secret space_id value now_ms global m).1).0
        ≡ ltb_ℤ later_ms (lease_end now_ms m.unlock_seconds)
  unfolding verify_and_unlock_inner
  verify_opens secret space_id value now_ms later_ms global m =
      elim (Bool-cases (is_blank space_id)) [
        | inl e ↦ rw e (λ h. ground arith)
        | inr e ↦ elim (Bool-cases (ltb_ℤ now_ms m.totp_state.locked_until_ms)) [
          | inl l ↦ rw (e, l) (λ h. ground arith)
          | inr l ↦
              rw (e, l)
                (concluded space_id now_ms later_ms m
                  (check_code sha1 salted_digest secret (trim (codes value)) global now_ms m) e
                  (check_code-Opens secret (trim (codes value)) global now_ms m))
        ]
      ]
