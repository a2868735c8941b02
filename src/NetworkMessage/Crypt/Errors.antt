-- ===== src/NetworkMessage/Crypt/Errors.antt =====
-- `AESEncrypt` and `AESDecrypt` where they return an error.
use necroauth.Prelude.{ℕ, ◌≡◌, true, List, ok, ℤ, is_negative, arith}
use necroauth.Aes.{Iv, increment_counter}
use necroauth.Aes.Gcm.{Evp, Outcome, failed, written}
use necroauth.NetworkMessage.{NetworkMessage}
use necroauth.NetworkMessage.Crypt.{sealed, seal_with, aes_encrypt, open_with, unseal, aes_decrypt}

-- The same unread bytes, at the same place.
pub record Keeps (m n : NetworkMessage) : Type 0 where
  pub same_bytes : n.bytes ≡ m.bytes
  pub same_rpos : n.rpos ≡ m.rpos
  pub same_wpos : n.wpos ≡ m.wpos

seal_with-Keeps :
    (m n : NetworkMessage) (iv : List ℕ) (x : Outcome (List ℕ × List ℕ)) (r : ℤ)
    → seal_with m iv x ≡ ok (n, r)
    → is_negative r ≡ true
    → Keeps m n
unfolding seal_with sealed
seal_with-Keeps m n iv (failed code) r e negative = ground arith
seal_with-Keeps m n iv (written x) r e negative = ground arith

-- An encryption that returns an error leaves the message's bytes and positions as they were, and yet
-- increments the counter of the initialisation vector.
pub aes_encrypt-Keeps :
    (o : Evp) (key aad : List ℕ) (iv iv' : Iv) (m n : NetworkMessage) (r : ℤ)
    → aes_encrypt o key aad iv m ≡ ok (n, iv', r)
    → is_negative r ≡ true
    → Keeps m n × (iv' ≡ increment_counter iv)
unfolding aes_encrypt
aes_encrypt-Keeps o key aad iv iv' m n r e negative = grind (arith, seal_with-Keeps)

open_with-Keeps :
    (m n : NetworkMessage) (size : ℕ) (x : Outcome (List ℕ)) (r : ℤ)
    → open_with m size x ≡ ok (n, r)
    → is_negative r ≡ true
    → Keeps m n
unfolding open_with
open_with-Keeps m n size (failed code) r e negative = ground arith
open_with-Keeps m n size (written x) r e negative = ground arith

unseal-Keeps :
    (o : Evp) (key aad : List ℕ) (m n : NetworkMessage) (size : ℕ) (r : ℤ)
    → unseal o key aad m size ≡ ok (n, r)
    → is_negative r ≡ true
    → Keeps m n
unfolding unseal
unseal-Keeps o key aad m n size r e negative = grind (arith, open_with-Keeps)

-- A decryption that returns an error, for an incomplete or a malformed packet or a tag that does not
-- verify, leaves the message's bytes and positions as they were.
pub aes_decrypt-Keeps :
    (o : Evp) (key aad : List ℕ) (m n : NetworkMessage) (r : ℤ)
    → aes_decrypt o key aad m ≡ ok (n, r)
    → is_negative r ≡ true
    → Keeps m n
unfolding aes_decrypt
aes_decrypt-Keeps o key aad m n r e negative = grind (arith, unseal-Keeps)
