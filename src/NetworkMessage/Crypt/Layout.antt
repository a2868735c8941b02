-- ===== src/NetworkMessage/Crypt/Layout.antt =====
-- Where the parts of an encrypted message stand.
use necroauth.Prelude.{
  ℕ, ◌+◌, ◌%◌, ◌^◌, ◌≡◌, List, [], ◌++◌, length, length-append, take, take_all, drop-append_length,
  slice, slice-append, refl, ap, ◌∙◌, sym, arith, le_bytes, htonl,
}
use necroauth.NetworkMessage.Crypt.{overhead}

slice_end : (xs ys : List ℕ) (p n : ℕ) → p ≡ length xs → n ≡ length ys → slice (xs ++ ys) p n ≡ ys
slice_end xs ys p n e k =
    ap (λ p. slice (xs ++ ys) p n) e
    ∙ ap (λ l. take n l) (drop-append_length xs ys)
    ∙ take_all n ys (omega arith)

-- The bytes of a sealed message.
abbrev pub packet : (size iv tag ciphertext : List ℕ) → List ℕ
packet size iv tag ciphertext = (((([] ++ size) ++ iv) ++ tag) ++ ciphertext)

abbrev pub size_bytes : List ℕ → List ℕ
size_bytes ciphertext = le_bytes 4 (htonl ((overhead + length ciphertext) % 2 ^ 32))

pub whole_size :
    (size iv tag ciphertext : List ℕ)
    → length (packet size iv tag ciphertext)
      ≡ length size + length iv + length tag + length ciphertext
whole_size size iv tag ciphertext = omega (
  arith,
  length-append ((size ++ iv) ++ tag) ciphertext,
  length-append (size ++ iv) tag,
  length-append size iv,
)

-- What is read of a sealed message.
pub record IsSealed (size iv tag ciphertext : List ℕ) : Type 0 where
  pub size_length : length size ≡ 4
  pub iv_length : length iv ≡ 12
  pub tag_length : length tag ≡ 16

module _ (size iv tag ciphertext : List ℕ) (s : IsSealed size iv tag ciphertext) where
  pub size_at : slice (packet size iv tag ciphertext) 0 4 ≡ size
  size_at =
      slice-append ((size ++ iv) ++ tag) ciphertext 0 4
        (omega (arith, s.size_length, length-append (size ++ iv) tag, length-append size iv))
      ∙ slice-append (size ++ iv) tag 0 4 (omega (arith, s.size_length, length-append size iv))
      ∙ slice-append size iv 0 4 (omega (arith, s.size_length))
      ∙ take_all 4 size (omega (arith, s.size_length))

  pub iv_at : slice (packet size iv tag ciphertext) 4 12 ≡ iv
  iv_at =
      slice-append ((size ++ iv) ++ tag) ciphertext 4 12 (
        omega (
          arith,
          s.size_length,
          s.iv_length,
          length-append (size ++ iv) tag,
          length-append size iv,
        ))
      ∙ slice-append (size ++ iv) tag 4 12
          (omega (arith, s.size_length, s.iv_length, length-append size iv))
      ∙ slice_end size iv 4 12 (sym s.size_length) (sym s.iv_length)

  pub tag_at : slice (packet size iv tag ciphertext) 16 16 ≡ tag
  tag_at =
      slice-append ((size ++ iv) ++ tag) ciphertext 16 16 (
        omega (
          arith,
          s.size_length,
          s.iv_length,
          s.tag_length,
          length-append (size ++ iv) tag,
          length-append size iv,
        ))
      ∙ slice_end (size ++ iv) tag 16 16
          (omega (arith, s.size_length, s.iv_length, length-append size iv)) (sym s.tag_length)

  pub ciphertext_at : slice (packet size iv tag ciphertext) 32 (length ciphertext) ≡ ciphertext
  ciphertext_at =
      slice_end ((size ++ iv) ++ tag) ciphertext 32 (length ciphertext)
        (omega (
          arith,
          s.size_length,
          s.iv_length,
          s.tag_length,
          length-append (size ++ iv) tag,
          length-append size iv,
        ))
        refl
