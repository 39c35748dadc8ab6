-- ===== src/Security/Hotp.antt =====
-- rust/crates/cli/src/security.rs: HOTP over HMAC-SHA-1.
use codex_telegram_bridge.Prelude.{
  ℕ, zero, suc, ◌+◌, ◌*◌, ◌/◌, ◌%◌, ◌^◌, if◌then◌else◌, List, [], ◌∷◌, ◌++◌, map, length, ltb,
}

-- The bits of two numbers below `2 ^ width`, one against the other.
unfoldable pub xor_bits : ℕ → ℕ → ℕ → ℕ
xor_bits zero a b = 0
xor_bits (suc width) a b = (a % 2 + b % 2) % 2 + 2 * xor_bits width (a / 2) (b / 2)

unfoldable pub byte_xor : ℕ → ℕ → ℕ
unfolding xor_bits
byte_xor mask byte = xor_bits 8 byte mask

-- `u64::to_be_bytes`: the last `width` bytes, the highest first.
unfoldable pub to_be_bytes : ℕ → ℕ → List ℕ
to_be_bytes zero n = []
to_be_bytes (suc width) n = (n / 256 ^ width) % 256 ∷ to_be_bytes width n

-- The byte at an index; the digests that are read have it.
unfoldable pub byte_at : ℕ → List ℕ → ℕ
byte_at index [] = 0
byte_at zero (b ∷ bs) = b
byte_at (suc index) (b ∷ bs) = byte_at index bs

-- Zeros up to 64 bytes.
unfoldable pub padded : ℕ → List ℕ → List ℕ
padded zero bytes = []
padded (suc width) [] = 0 ∷ padded width []
padded (suc width) (b ∷ bs) = b ∷ padded width bs

-- `format!("{:06}")`: the digits of a number below `10 ^ width`, as code points.
unfoldable pub zero_padded : ℕ → ℕ → List ℕ
zero_padded zero n = []
zero_padded (suc width) n = (48 + (n / 10 ^ width) % 10) ∷ zero_padded width n

-- `sha1` is the digest of 20 bytes.
module _ (sha1 : List ℕ → List ℕ) where
  unfoldable pub hmac_sha1 : List ℕ → List ℕ → List ℕ
  unfolding byte_xor padded
  hmac_sha1 key message =
      let block = padded 64 (if ltb 64 (length key) then sha1 key else key) in
      let inner = sha1 (map (byte_xor 0x36) block ++ message) in
      sha1 (map (byte_xor 0x5c) block ++ inner)

  unfoldable pub truncate_digest : List ℕ → ℕ
  unfolding byte_at
  truncate_digest digest =
      let offset = byte_at 19 digest % 16 in
      byte_at offset digest % 128 * 2 ^ 24
      + byte_at (offset + 1) digest * 2 ^ 16
      + byte_at (offset + 2) digest * 2 ^ 8
      + byte_at (offset + 3) digest

  unfoldable pub hotp : List ℕ → ℕ → List ℕ
  unfolding hmac_sha1 truncate_digest to_be_bytes zero_padded
  hotp key counter =
      zero_padded 6 (truncate_digest (hmac_sha1 key (to_be_bytes 8 counter)) % 10 ^ 6)
