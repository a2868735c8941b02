-- ===== src/Tests/Crypto.antt =====
-- Encryption where it fails.
use necroauth.Prelude.{
  true, some, pos, arith, ◌≡◌, false, [], ◌∷◌, none, ok, negsuc, refl, of_le, htonl, resize,
  replicate,
}
use necroauth.Aes.{to_byte_array, Iv, increment_counter}
use necroauth.Aes.Gcm.{Evp, encrypt, decrypt}
use necroauth.NetworkMessage.{NetworkMessage, read_at}
use necroauth.NetworkMessage.Crypt.{aes_encrypt, aes_decrypt, unseal, open_with}
use necroauth.NetworkMessage.Crypt.Errors.{Keeps, aes_encrypt-Keeps, aes_decrypt-Keeps}
use necroauth.NetworkMessage.Crypt.Round.{IsWorking, aes_decrypt-aes_encrypt}
use necroauth.NetworkMessage.Contents.{contents}
use necroauth.NetworkMessage.Write.{Shows}
use necroauth.Tests.Data.{message}

-- No call succeeds.
abbrev failing : Evp
failing = record {
  succeeds = λ c. false;
  seal = λ key iv aad plaintext. (plaintext, []);
  unseal = λ key iv aad ciphertext tag. none;
}

abbrev iv : Iv
iv = record { prefix = 5; counter = 3 }

abbrev next_iv : Iv
next_iv = record { prefix = 5; counter = 4 }

-- Two bytes, of which the encryption makes room for two in `m_cipherData`.
abbrev plain : NetworkMessage
plain = message (1 ∷ 2 ∷ [])

abbrev unchanged : NetworkMessage
unchanged = record plain { cipher_bytes = 0 ∷ 0 ∷ [] }

encrypt_fails : aes_encrypt failing [] [] iv plain ≡ ok (unchanged, next_iv, negsuc 0)
unfolding aes_encrypt encrypt read_at resize
encrypt_fails = refl

aes_encrypt-Keeps_example : Keeps plain unchanged × (next_iv ≡ increment_counter iv)
aes_encrypt-Keeps_example =
    aes_encrypt-Keeps failing [] [] iv next_iv plain unchanged (negsuc 0) encrypt_fails refl

-- A vector, a tag and no text, which does not verify.
abbrev whole : NetworkMessage
whole = message (0 ∷ 0 ∷ 0 ∷ 28 ∷ replicate 28 7)

decrypt_fails : aes_decrypt failing [] [] whole ≡ ok (whole, negsuc 2)
unfolding aes_decrypt read_at of_le unseal htonl open_with decrypt resize
decrypt_fails = refl

aes_decrypt-Keeps_example : Keeps whole whole
aes_decrypt-Keeps_example =
    aes_decrypt-Keeps failing [] [] whole whole (negsuc 2) decrypt_fails refl

-- Every call succeeds, the ciphertext is the text, and the tag is zero.
abbrev copying : Evp
copying = record {
  succeeds = λ c. true;
  seal = λ key iv aad plaintext. (plaintext, replicate 16 0);
  unseal = λ key iv aad ciphertext tag. some ciphertext;
}

copying-IsWorking : IsWorking copying [] [] (to_byte_array iv) (1 ∷ 2 ∷ [])
copying-IsWorking = record { succeed = λ c. refl; opens = refl; text_size = refl; tag_size = refl }

plain-Shows : Shows (1 ∷ 2 ∷ []) plain
unfolding contents
plain-Shows = record {
  valid = record { ordered = omega arith; inside = omega arith; small = omega arith };
  unread = refl;
}

aes_decrypt-aes_encrypt_example :
    (n n' : NetworkMessage) × (aes_encrypt copying [] [] iv plain
      ≡ ok (n, increment_counter iv, pos 2))
    × (aes_decrypt copying [] [] n ≡ ok (n', pos 2))
    × Shows (1 ∷ 2 ∷ []) n'
aes_decrypt-aes_encrypt_example =
    aes_decrypt-aes_encrypt copying [] [] (1 ∷ 2 ∷ []) iv plain plain-Shows (omega arith)
      copying-IsWorking
