-- ===== src/NetworkMessage/Contents.antt =====
-- The unread bytes of a message, and what each operation does to them.
use necroauth.Prelude.{
  ℕ, ◌-◌, ◌≤◌, ◌<◌, ◌^◌, ◌≡◌, inl, inr, refl, ap, ◌∙◌, sym, List, [], length, arith, ok, Bool-cases,
  ltb, ◌==◌, sub_size, write_at, slice, slice-write_at, length-slice, length-write_at,
}
use necroauth.NetworkMessage.{
  NetworkMessage, get_active_size, get_remaining_space, compact_data, shift, rewind, read_at,
  store_at,
}

-- The positions are in order and inside the vector, whose size leaves room for growth.
pub record IsValid (m : NetworkMessage) : Type 0 where
  pub ordered : m.rpos ≤ m.wpos
  pub inside : m.wpos ≤ length m.bytes
  pub small : length m.bytes < 2 ^ 63

unfoldable pub contents : NetworkMessage → List ℕ
contents m = slice m.bytes m.rpos (m.wpos - m.rpos)

-- No size computation of a valid message wraps.
pub sizes :
    {m : NetworkMessage}
    → IsValid m
    → (get_active_size m ≡ m.wpos - m.rpos)
      × (get_remaining_space m ≡ length m.bytes - m.wpos)
      × (length (contents m) ≡ m.wpos - m.rpos)
unfolding contents
sizes {m} v =
    (omega arith, omega arith, length-slice m.bytes m.rpos (m.wpos - m.rpos) (omega arith))

-- `compact_data` moves the unread bytes to the front.
pub record Compacted (m c : NetworkMessage) : Type 0 where
  pub valid : IsValid c
  pub same : contents c ≡ contents m
  pub at_front : c.rpos ≡ 0
  pub end : c.wpos ≡ m.wpos - m.rpos
  pub room : length c.bytes ≡ length m.bytes

shifted : NetworkMessage → NetworkMessage
shifted m = record m { bytes = write_at m.bytes 0 (slice m.bytes m.rpos (m.wpos - m.rpos)) }

shift_lem : {m : NetworkMessage} → IsValid m → shift m ≡ ok (shifted m)
unfolding shift shifted read_at store_at
shift_lem {m} v = ground (arith, sizes v, length-slice m.bytes m.rpos (m.wpos - m.rpos))

shifted-Compacted : {m : NetworkMessage} → IsValid m → Compacted m (rewind (shifted m))
unfolding rewind shifted contents
shifted-Compacted {m} v = record {
  valid = record {
    ordered = omega arith;
    inside = omega (arith, kept);
    small = omega (arith, kept);
  };
  same =
      ap (λ k. slice moved 0 k) end
      ∙ ap (slice moved 0) (sym len)
      ∙ slice-write_at m.bytes 0 unread (omega arith);
  at_front = refl;
  end = omega arith;
  room = kept;
}
  where
    n : ℕ
    n = m.wpos - m.rpos

    unread : List ℕ
    unread = slice m.bytes m.rpos n

    len : length unread ≡ n
    len = length-slice m.bytes m.rpos n (omega arith)

    moved : List ℕ
    moved = write_at m.bytes 0 unread

    kept : length moved ≡ length m.bytes
    kept = length-write_at m.bytes 0 unread (omega (arith, len))

    end : sub_size m.wpos m.rpos - 0 ≡ n
    end = omega arith

slice_nothing : (bs : List ℕ) (p n : ℕ) → n ≡ 0 → slice bs p n ≡ []
slice_nothing bs p n e = ap (slice bs p) e

rewind-Compacted : {m : NetworkMessage} → IsValid m → m.rpos ≡ m.wpos → Compacted m (rewind m)
unfolding rewind contents
rewind-Compacted {m} v e = record {
  valid = omega arith;
  same =
      slice_nothing m.bytes 0 (sub_size m.wpos m.rpos - 0) (omega arith)
      ∙ sym (slice_nothing m.bytes m.rpos (m.wpos - m.rpos) (omega arith));
  at_front = refl;
  end = omega arith;
  room = refl;
}

unread_none-Compacted : {m : NetworkMessage} → IsValid m → m.rpos ≡ 0 → Compacted m m
unread_none-Compacted {m} v e = record {
  valid = v;
  same = refl;
  at_front = e;
  end = omega arith;
  room = refl;
}

-- Compacting a valid message succeeds, and the unread bytes are then the first ones.
pub compact_data-Compacted :
    {m : NetworkMessage}
    → IsValid m
    → (c : NetworkMessage) × (compact_data m ≡ ok c) × Compacted m c
unfolding compact_data
compact_data-Compacted {m} v = elim (Bool-cases (ltb 0 m.rpos)) [
  | inr idle ↦ (m, rw idle, unread_none-Compacted v (ground arith))
  | inl moved ↦ elim (Bool-cases (m.rpos == m.wpos)) [
    | inl all ↦ (rewind m, rw (moved, all), rewind-Compacted v (ground arith))
    | inr some ↦ (rewind (shifted m), rw (moved, some, shift_lem v), shifted-Compacted v)
  ]
]
