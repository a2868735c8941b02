-- ===== src/NetworkMessage/Crypt/Round.antt =====
-- `AESEncrypt`, then `AESDecrypt` with the same key.
use necroauth.Prelude.{
  ℕ, ◌+◌, ◌-◌, ◌%◌, ◌^◌, ◌<◌, ◌≡◌, true, false, ltb, leb, le→ltb, List, [], length, length-append,
  take_all, some, ok, ◌>>=◌, ℤ, pos, refl, ap, ap₂, ◌∙◌, sym, arith, le_bytes, of_le,
  of_le-le_bytes, length-le_bytes, htonl, ntohl, ntohl-htonl, htonl-lt, resize,
}
use necroauth.Aes.{Iv, increment_counter, to_byte_array}
use necroauth.Aes.Gcm.{Evp, Call, written, encrypt, decrypt}
use necroauth.NetworkMessage.{NetworkMessage, get_active_size, soft_clear, read_at}
use necroauth.NetworkMessage.Contents.{contents, sizes}
use necroauth.NetworkMessage.Write.{Shows, write-Grows}
use necroauth.NetworkMessage.Buffer.{active_size-Shows, read_at-Shows}
use necroauth.NetworkMessage.Crypt.{
  overhead, sealed, seal_with, aes_encrypt, open_with, unseal, aes_decrypt,
}
use necroauth.NetworkMessage.Crypt.Layout.{
  packet, size_bytes, whole_size, IsSealed, size_at, iv_at, tag_at, ciphertext_at,
}

-- What the code relies on: the calls succeed, the ciphertext is as long as the text, the tag has 16
-- bytes, and what was sealed is opened with the same key, vector and additional data.
pub record IsWorking (o : Evp) (key aad iv plaintext : List ℕ) : Type 0 where
  pub succeed : (c : Call) → o.succeeds c ≡ true
  pub opens :
      o.unseal key iv aad (o.seal key iv aad plaintext).0 (o.seal key iv aad plaintext).1
      ≡ some plaintext
  pub text_size : length (o.seal key iv aad plaintext).0 ≡ length plaintext
  pub tag_size : length (o.seal key iv aad plaintext).1 ≡ 16

cleared-Shows : (m : NetworkMessage) → length m.bytes < 2 ^ 63 → Shows [] (soft_clear m)
unfolding soft_clear contents
cleared-Shows m h = record {
  valid = record { ordered = omega arith; inside = omega arith; small = h };
  unread = refl;
}

sealed-Shows :
    (m : NetworkMessage) (iv ciphertext tag : List ℕ)
    → length m.bytes < 2 ^ 31
    → length ciphertext < 2 ^ 31
    → length iv ≡ 12
    → length tag ≡ 16
    → (n : NetworkMessage) × (sealed m iv (ciphertext, tag) ≡ ok (n, pos (length ciphertext)))
      × Shows (packet (size_bytes ciphertext) iv tag ciphertext) n
      × (length n.bytes < 2 ^ 40)
unfolding sealed soft_clear
sealed-Shows m iv ciphertext tag h k i t =
    let s = length-le_bytes 4 (htonl ((overhead + length ciphertext) % 2 ^ 32)) in
    let m0 = record m { cipher_bytes = ciphertext; tag = tag } in
    let (a, ea, sa, la) =
      write-Grows (size_bytes ciphertext) (cleared-Shows m0 (omega arith)) (omega (arith, s)) in
    let (b, eb, sb, lb) = write-Grows iv sa (omega (arith, s, la)) in
    let (c, ec, sc, lc) = write-Grows tag sb (omega (arith, s, la, lb)) in
    let (d, ed, sd, ld) = write-Grows ciphertext sc (omega (arith, s, la, lb, lc)) in
    (d, rw (ea, eb, ec, ed) refl, sd, omega (arith, s, la, lb, lc, ld))

encrypt-written :
    (o : Evp) (key aad iv plaintext : List ℕ)
    → IsWorking o key aad iv plaintext
    → encrypt o key iv aad plaintext ≡ written (o.seal key iv aad plaintext)
unfolding encrypt
encrypt-written o key aad iv plaintext w =
    rw
      (
        w.succeed Call.new_context,
        w.succeed Call.set_cipher,
        w.succeed Call.set_iv_length,
        w.succeed Call.set_key_and_iv,
        w.succeed Call.update_aad,
        w.succeed Call.update,
        w.succeed Call.finish,
        w.succeed Call.tag_control,
      )
      refl

decrypt-written :
    (o : Evp) (key aad iv plaintext : List ℕ)
    → IsWorking o key aad iv plaintext
    → decrypt o key iv aad (o.seal key iv aad plaintext).0 (o.seal key iv aad plaintext).1
      ≡ written plaintext
unfolding decrypt
decrypt-written o key aad iv plaintext w =
    rw
      (
        w.succeed Call.new_context,
        w.succeed Call.set_cipher,
        w.succeed Call.set_iv_length,
        w.succeed Call.set_key_and_iv,
        w.succeed Call.update_aad,
        w.succeed Call.update,
        w.succeed Call.tag_control,
        w.opens,
      )
      refl

decrypted :
    (o : Evp) (key aad : List ℕ) (m : NetworkMessage) (size : List ℕ)
    → ltb (get_active_size m) 4 ≡ false
    → read_at m m.rpos 4 ≡ ok size
    → aes_decrypt o key aad m ≡ unseal o key aad m (ntohl (of_le size))
unfolding aes_decrypt
decrypted o key aad m size long e = rw (long, e) refl

unsealed :
    (o : Evp) (key aad iv tag ciphertext : List ℕ) (m : NetworkMessage)
    → ltb (get_active_size m) (4 + (overhead + length ciphertext)) ≡ false
    → ltb (overhead + length ciphertext) overhead ≡ false
    → length ciphertext < 2 ^ 31
    → read_at m (m.rpos + 4) 12 ≡ ok iv
    → read_at m (m.rpos + 16) 16 ≡ ok tag
    → read_at m (m.rpos + 32) (length ciphertext) ≡ ok ciphertext
    → unseal o key aad m (overhead + length ciphertext)
      ≡ open_with m (length ciphertext) (decrypt o key iv aad ciphertext tag)
unfolding unseal
unsealed o key aad iv tag ciphertext m whole formed small at4 at16 at32 =
    let ps = overhead + length ciphertext in
    let below : leb (2 ^ 31 + overhead) ps ≡ false = ground arith in
    let rest : ps - overhead ≡ length ciphertext = omega arith in
    rw (whole, formed, below, rest, at4, at16, at32) refl

-- The message after the decryption of what was sealed.
unseal-opens :
    (o : Evp) (key aad iv plaintext tag ciphertext : List ℕ) (m : NetworkMessage)
    → Shows (packet (size_bytes ciphertext) iv tag ciphertext) m
    → length m.bytes < 2 ^ 40
    → length ciphertext < 2 ^ 31
    → length iv ≡ 12
    → length tag ≡ 16
    → length plaintext ≡ length ciphertext
    → decrypt o key iv aad ciphertext tag ≡ written plaintext
    → (n : NetworkMessage) × (aes_decrypt o key aad m ≡ ok (n, pos (length plaintext)))
      × Shows plaintext n
unfolding open_with soft_clear
unseal-opens o key aad iv plaintext tag ciphertext m shows h k i t same opens =
    let size = size_bytes ciphertext in
    let all = packet size iv tag ciphertext in
    let s : IsSealed size iv tag ciphertext = record {
      size_length = length-le_bytes 4 (htonl ((overhead + length ciphertext) % 2 ^ 32));
      iv_length = i;
      tag_length = t;
    } in
    let whole = whole_size size iv tag ciphertext in
    let len = active_size-Shows shows ∙ whole in
    let ps = overhead + length ciphertext in
    let number : ntohl (of_le size) ≡ ps =
      ap ntohl (of_le-le_bytes 4 (htonl (ps % 2 ^ 32)) (htonl-lt (ps % 2 ^ 32)))
      ∙ ntohl-htonl (ps % 2 ^ 32) (omega arith)
      ∙ (omega arith) in
    let base : m.rpos ≡ m.rpos + 0 = omega arith in
    let at0 : read_at m m.rpos 4 ≡ ok size =
      ap (λ p. read_at m p 4) base
      ∙ read_at-Shows 0 4 shows (omega (arith, whole, s.size_length))
      ∙ ap ok (size_at size iv tag ciphertext s) in
    let at4 : read_at m (m.rpos + 4) 12 ≡ ok iv =
      read_at-Shows 4 12 shows (omega (arith, whole, s.size_length, i))
      ∙ ap ok (iv_at size iv tag ciphertext s) in
    let at16 : read_at m (m.rpos + 16) 16 ≡ ok tag =
      read_at-Shows 16 16 shows (omega (arith, whole, s.size_length, i, t))
      ∙ ap ok (tag_at size iv tag ciphertext s) in
    let at32 : read_at m (m.rpos + 32) (length ciphertext) ≡ ok ciphertext =
      read_at-Shows 32 (length ciphertext) shows (omega (arith, whole, s.size_length, i, t))
      ∙ ap ok (ciphertext_at size iv tag ciphertext s) in
    let m0 = record m { cipher_bytes = resize (length ciphertext) plaintext } in
    let (n, e, opened, _) = write-Grows plaintext (cleared-Shows m0 (omega arith)) (omega arith) in
    let done : open_with m (length ciphertext) (written plaintext)
        ≡ ok (n, pos (length plaintext)) =
      ap (λ r. r >>= λ n. ok (n, pos (length plaintext))) e in
    let active = get_active_size m in
    (
      n,
      decrypted o key aad m size (le→ltb active 4 (omega (arith, len, s.size_length))) at0
          ∙ ap (λ k. unseal o key aad m k) number
          ∙ unsealed o key aad iv tag ciphertext m
              (le→ltb active (4 + ps) (omega (arith, len, s.size_length, i, t)))
              (le→ltb ps overhead (omega arith)) k at4 at16 at32
          ∙ ap (open_with m (length ciphertext)) opens
          ∙ done,
      opened,
    )

encrypted :
    (o : Evp) (key aad ps : List ℕ) (iv : Iv) (m n : NetworkMessage) (x : List ℕ × List ℕ) {r : ℤ}
    → read_at m m.rpos (get_active_size m) ≡ ok ps
    → encrypt o key (to_byte_array iv) aad ps ≡ written x
    → sealed m (to_byte_array iv) x ≡ ok (n, r)
    → aes_encrypt o key aad iv m ≡ ok (n, increment_counter iv, r)
unfolding aes_encrypt seal_with
encrypted o key aad ps iv m n x text e k = rw (text, e, k) refl

-- What is encrypted is decrypted by the same key and additional data. Where OpenSSL works, a message
-- in a vector of fewer than 2^31 bytes is encrypted, with the length of its text as the result and
-- the counter of the vector incremented; the decryption of that message succeeds with the same
-- length, and its unread bytes are those of the first message.
pub aes_decrypt-aes_encrypt :
    (o : Evp) (key aad ps : List ℕ) (iv : Iv) (m : NetworkMessage)
    → Shows ps m
    → length m.bytes < 2 ^ 31
    → IsWorking o key aad (to_byte_array iv) ps
    → (n n' : NetworkMessage) × (aes_encrypt o key aad iv m
        ≡ ok (n, increment_counter iv, pos (length ps)))
      × (aes_decrypt o key aad n ≡ ok (n', pos (length ps)))
      × Shows ps n'
unfolding to_byte_array
aes_decrypt-aes_encrypt o key aad ps iv m shows h w =
    let v = to_byte_array iv in
    let (ciphertext, tag) = o.seal key v aad ps in
    let active = active_size-Shows shows in
    let small : length ps < 2 ^ 31 = omega (arith, sizes shows.valid, shows.valid, active) in
    let twelve : length v ≡ 12 = omega (
      arith,
      length-append (le_bytes 4 iv.prefix) (le_bytes 8 iv.counter),
      length-le_bytes 4 iv.prefix,
      length-le_bytes 8 iv.counter,
    ) in
    let (n, e, sealed_shows, bound) =
      sealed-Shows m v ciphertext tag h (omega (arith, w.text_size)) twelve w.tag_size in
    let (n', e', opened) =
      unseal-opens o key aad v ps tag ciphertext n sealed_shows bound (omega (arith, w.text_size))
        twelve w.tag_size (sym w.text_size) (decrypt-written o key aad v ps w) in
    let base : m.rpos ≡ m.rpos + 0 = omega arith in
    let text : read_at m m.rpos (get_active_size m) ≡ ok ps =
      ap₂ (λ p k. read_at m p k) base active
      ∙ read_at-Shows 0 (length ps) shows (omega arith)
      ∙ ap ok (take_all (length ps) ps (omega arith)) in
    (
      n,
      n',
      encrypted o key aad ps iv m n (ciphertext, tag) text (encrypt-written o key aad v ps w) e
          ∙ ap (λ k. ok (n, increment_counter iv, pos k)) w.text_size,
      e',
      opened,
    )
