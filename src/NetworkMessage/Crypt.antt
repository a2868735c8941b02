-- ===== src/NetworkMessage/Crypt.antt =====
-- `AESEncrypt` and `AESDecrypt`: a message is replaced by its size, the initialisation vector, the
-- tag and the ciphertext, and back. The size is sent in network order. What a failed call leaves in
-- `m_cipherData` is not followed: it is overwritten before it is read.
pub mod Errors
pub mod Layout
pub mod Round
use necroauth.Prelude.{
  ℕ, ◌+◌, ◌-◌, ◌%◌, ◌^◌, Bool, true, false, List, [], length, if◌then◌else◌, ltb, leb, ◌||◌, Result,
  ok, ◌>>=◌, ℤ, pos, negsuc, le_bytes, of_le, htonl, ntohl, resize,
}
use necroauth.Aes.{Iv, increment_counter, to_byte_array}
use necroauth.Aes.Gcm.{Evp, Outcome, failed, written, encrypt, decrypt}
use necroauth.NetworkMessage.{NetworkMessage, get_active_size, soft_clear, write, read_at}

-- `GCM_IV_SIZE + GCM_TAG_SIZE`
abbrev pub overhead : ℕ
overhead = 12 + 16

-- The message after a successful encryption.
unfoldable pub sealed : NetworkMessage → List ℕ → List ℕ × List ℕ → Result (NetworkMessage × ℤ)
sealed m iv_bytes (ciphertext, tag) = do
  let packet_size = htonl ((overhead + length ciphertext) % 2 ^ 32)
  a ←
      write (soft_clear (record m { cipher_bytes = ciphertext; tag = tag }))
        (le_bytes 4 packet_size)
  b ← write a iv_bytes
  c ← write b tag
  d ← write c ciphertext
  ok (d, pos (length ciphertext))

-- What follows from the outcome of `AES::Encrypt`.
unfoldable pub seal_with :
    NetworkMessage → List ℕ → Outcome (List ℕ × List ℕ) → Result (NetworkMessage × ℤ)
unfolding sealed
seal_with m iv_bytes (failed code) =
    ok (record m { cipher_bytes = resize (get_active_size m) m.cipher_bytes }, negsuc 0)
seal_with m iv_bytes (written x) = sealed m iv_bytes x

-- `AESEncrypt`: the counter is incremented whatever happens.
unfoldable pub aes_encrypt :
    Evp → (key aad : List ℕ) → Iv → NetworkMessage → Result (NetworkMessage × Iv × ℤ)
unfolding seal_with increment_counter to_byte_array
aes_encrypt o key aad iv m = do
  plaintext ← read_at m m.rpos (get_active_size m)
  (n, r) ← seal_with m (to_byte_array iv) (encrypt o key (to_byte_array iv) aad plaintext)
  ok (n, increment_counter iv, r)

unfoldable pub open_with : NetworkMessage → ℕ → Outcome (List ℕ) → Result (NetworkMessage × ℤ)
open_with m size (failed code) =
    ok (record m { cipher_bytes = resize size m.cipher_bytes }, negsuc 2)
open_with m size (written plaintext) = do
  n ← write (soft_clear (record m { cipher_bytes = resize size plaintext })) plaintext
  ok (n, pos (length plaintext))

-- `AESDecrypt`: -1 for an incomplete packet, -2 for a malformed one, whose text would have a negative
-- `int` as its size, -3 for one that does not verify.
unfoldable pub unseal : Evp → (key aad : List ℕ) → NetworkMessage → ℕ → Result (NetworkMessage × ℤ)
unfolding open_with
unseal o key aad m packet_size =
    if ltb (get_active_size m) (4 + packet_size)
    then ok (m, negsuc 0)
    else (if ltb packet_size overhead || leb (2 ^ 31 + overhead) packet_size
        then ok (m, negsuc 1)
        else (do
          let size = packet_size - overhead
          iv ← read_at m (m.rpos + 4) 12
          tag ← read_at m (m.rpos + 16) 16
          ciphertext ← read_at m (m.rpos + 32) size
          open_with m size (decrypt o key iv aad ciphertext tag)))

unfoldable pub aes_decrypt : Evp → (key aad : List ℕ) → NetworkMessage → Result (NetworkMessage × ℤ)
unfolding unseal
aes_decrypt o key aad m =
    if ltb (get_active_size m) 4
    then ok (m, negsuc 0)
    else (do bs ← read_at m m.rpos 4; unseal o key aad m (ntohl (of_le bs)))
