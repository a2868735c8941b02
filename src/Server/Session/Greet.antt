-- ===== src/Server/Session/Greet.antt =====
-- The gather-info packet on the server: what is read from its bytes.
use necroauth.Prelude.{ℕ, ◌+◌, ◌≤◌, ◌≡◌, List, [], length, true, ok, of_le, slice, arith}
use necroauth.Database.{Statement, SqlStatement, prepare}
use necroauth.NetworkMessage.{NetworkMessage}
use necroauth.NetworkMessage.Write.{Shows}
use necroauth.NetworkMessage.Buffer.{read_at-Shows}
use necroauth.Server.Session.{Focus, in_buffer, read_u8, handle_gather_info, greeted}

-- The byte at this offset of a packet.
abbrev pub byte_at : List ℕ → ℕ → ℕ
byte_at bs q = of_le (slice bs q 1)

pub read_u8-Shows :
    {bs : List ℕ} {m : NetworkMessage} (q : ℕ)
    → Shows bs m
    → q + 1 ≤ length bs
    → read_u8 m (m.rpos + q) ≡ ok (byte_at bs q)
unfolding read_u8
read_u8-Shows q s h = rw (read_at-Shows q 1 s h)

abbrev pub select_id : SqlStatement
select_id = record { query = Statement.sel_account_id_by_name; bound = [] }

-- When the unread bytes hold a header of eight bytes and as many more as its username size says,
-- the handler succeeds: it records the username and the version, and asks for the account's id.
pub handle_gather_info-greeted :
    {bs : List ℕ} (f : Focus)
    → Shows bs (in_buffer f)
    → 8 + byte_at bs 7 ≤ length bs
    → handle_gather_info f
      ≡ ok (
        greeted f
            (slice bs 8 (byte_at bs 7))
            (byte_at bs 4)
            (byte_at bs 5)
            (byte_at bs 6)
            select_id,
        true,
      )
unfolding handle_gather_info prepare
handle_gather_info-greeted {bs} f s h = rw (
  read_u8-Shows 7 s (omega arith),
  read_at-Shows 8 (byte_at bs 7) s h,
  read_u8-Shows 4 s (omega arith),
  read_u8-Shows 5 s (omega arith),
  read_u8-Shows 6 s (omega arith),
)
