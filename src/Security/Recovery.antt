-- ===== src/Security/Recovery.antt =====
-- Recovery codes: rust/crates/storage-sqlite/src/lib.rs, and
-- `verify_recovery_code` of rust/crates/cli/src/security.rs.
use codex_telegram_bridge.Prelude.{
  ℕ, suc, Bool, true, false, ◌&&◌, if◌then◌else◌, Option, none, some, String, List, [], ◌∷◌, map,
  length, ◌==◌, nat_ord, string_ord, option_ord, codes, trim, is_ascii_hexdigit, to_ascii_uppercase,
}
use codex_telegram_bridge.Prelude.Int.{ℤ}

pub record RecoveryCode : Type 0 where
  pub digest : String
  pub salt : String
  pub consumed_at_ms : Option ℤ

abbrev pub is_unused : RecoveryCode → Bool
is_unused code = elim code.consumed_at_ms [ none ↦ true | some _ ↦ false ]

-- The pairs of digest and salt, in the order of the rows.
unfoldable pub unused_recovery_codes : List RecoveryCode → List (String × String)
unused_recovery_codes [] = []
unused_recovery_codes (code ∷ codes) =
    let rest = unused_recovery_codes codes in
    if is_unused code then (code.digest, code.salt) ∷ rest else rest

-- The rows that the update of `consume_recovery_code` changes.
abbrev pub is_consumable : String → RecoveryCode → Bool
is_consumable digest code = code.digest == digest && is_unused code

abbrev pub consumed : String → ℤ → RecoveryCode → RecoveryCode
consumed digest now_ms code =
    if is_consumable digest code then record code { consumed_at_ms = some now_ms } else code

abbrev pub count_consumable : String → List RecoveryCode → ℕ
count_consumable digest [] = 0
count_consumable digest (code ∷ codes) =
    let rest = count_consumable digest codes in if is_consumable digest code then suc rest else rest

unfoldable pub consume_recovery_code : String → ℤ → List RecoveryCode → Bool × List RecoveryCode
consume_recovery_code digest now_ms rows =
    (count_consumable digest rows == 1, map (consumed digest now_ms) rows)

-- The hyphen stands at index 6.
abbrev pub has_code_form : ℕ → List ℕ → Bool
has_code_form index [] = true
has_code_form index (c ∷ cs) =
    (if index == 6 then c == 45 else is_ascii_hexdigit c) && has_code_form (suc index) cs

unfoldable pub normalized : List ℕ → List ℕ
normalized value = map to_ascii_uppercase (trim value)

unfoldable pub is_recovery_code : List ℕ → Bool
is_recovery_code code = length code == 13 && has_code_form 0 code

-- `salted_digest` is the lower-case hexadecimal SHA-256 of the decoded salt and the code, where
-- the salt is hexadecimal.
module _ (salted_digest : String → List ℕ → Option String) where
  unfoldable pub try_codes :
      List (String × String) → List ℕ → ℤ → List RecoveryCode → Bool × List RecoveryCode
  try_codes [] code now_ms rows = (false, rows)
  try_codes ((expected, salt) ∷ entries) code now_ms rows =
      elim (salted_digest salt code == some expected) [
        | false ↦ try_codes entries code now_ms rows
        | true ↦
            let (taken, rows') = consume_recovery_code expected now_ms rows in
            let rest = try_codes entries code now_ms rows' in if taken then (true, rows') else rest
      ]

  unfoldable pub verify_recovery_code : List ℕ → ℤ → List RecoveryCode → Bool × List RecoveryCode
  unfolding try_codes normalized is_recovery_code
  verify_recovery_code value now_ms rows =
      let code = normalized value in
      if is_recovery_code code
      then try_codes (unused_recovery_codes rows) code now_ms rows
      else (false, rows)
