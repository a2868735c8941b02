-- ===== src/Aes/Gcm.antt =====
-- `Encrypt` and `Decrypt` of shared/Encryption/AES.h: the chains of calls of OpenSSL's EVP functions,
-- which are outside. A context is not freed when a call fails; this is not visible here.
use necroauth.Prelude.{ℕ, Bool, List, Option, none, some, if◌then◌else◌}

-- The calls of a chain, in their order.
pub data Call : Type 0 where
  new_context set_cipher set_iv_length set_key_and_iv update_aad update finish tag_control : Call

-- OpenSSL: whether each call succeeds, and what AES-128-GCM makes of its inputs. `unseal` is none
-- where the tag does not verify.
pub record Evp : Type 0 where
  pub succeeds : Call → Bool
  pub seal : (key iv aad plaintext : List ℕ) → List ℕ × List ℕ
  pub unseal : (key iv aad ciphertext tag : List ℕ) → Option (List ℕ)

-- An error code -(n + 1), or what was written.
pub data Outcome (Written : Type 0) : Type 0 where
  failed : ℕ → Outcome Written
  written : Written → Outcome Written

-- `if (1 != call) return code;`
abbrev unless : {Written : Type 0} → Bool → ℕ → Outcome Written → Outcome Written
unless good code rest = if good then rest else failed code

-- `Encrypt`: ciphertext and tag. A context and a cipher that fail share a code.
unfoldable pub encrypt : Evp → (key iv aad plaintext : List ℕ) → Outcome (List ℕ × List ℕ)
encrypt o key iv aad plaintext = unless (o.succeeds new_context) 0 (
    unless (o.succeeds set_cipher) 0 (
      unless (o.succeeds set_iv_length) 2 (
        unless (o.succeeds set_key_and_iv) 3 (
          unless (o.succeeds update_aad) 4 (
            unless (o.succeeds update) 5 (
              unless (o.succeeds finish) 6
                (unless (o.succeeds tag_control) 7 (written (o.seal key iv aad plaintext)))))))))

verified : Option (List ℕ) → Outcome (List ℕ)
verified none = failed 0
verified (some plaintext) = written plaintext

-- `Decrypt`: the tag is set before the last call, which verifies it.
unfoldable pub decrypt : Evp → (key iv aad ciphertext tag : List ℕ) → Outcome (List ℕ)
unfolding verified
decrypt o key iv aad ciphertext tag = unless (o.succeeds new_context) 0 (
    unless (o.succeeds set_cipher) 1 (
      unless (o.succeeds set_iv_length) 2 (
        unless (o.succeeds set_key_and_iv) 3 (
          unless (o.succeeds update_aad) 4 (
            unless (o.succeeds update) 5 (
              unless (o.succeeds tag_control) 6
                (verified (o.unseal key iv aad ciphertext tag))))))))
