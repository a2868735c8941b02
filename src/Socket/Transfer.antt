-- ===== src/Socket/Transfer.antt =====
-- One packet on its way: queued, sent whole, and gone from the queue.
use necroauth.Prelude.{
  ℕ, ◌≡◌, false, List, [], ◌∷◌, ◌++◌, length, length-drop, Result, ok, ◌>>=◌, arith, not, ◌&&◌, ◌∙◌,
  ap, true, refl, ◌==◌,
}
use necroauth.NetworkMessage.{NetworkMessage, get_active_size, read_completed}
use necroauth.NetworkMessage.Contents.{contents}
use necroauth.NetworkMessage.Write.{Shows}
use necroauth.NetworkMessage.Buffer.{active_size-Shows, read_completed-Shows}
use necroauth.Socket.{
  Socket, wrote, send, send_front, attempt_send, sent, queue_packet, update_events,
}
use necroauth.Socket.Idle.{IsIdle}

-- The bytes of the packet at the front of the queue.
abbrev pub front : List NetworkMessage → List ℕ
front [] = []
front (m ∷ ms) = contents m

-- `Send` once, where the system takes the whole packet.
unfoldable pub transfer : Socket → Result Socket
transfer s = send s (wrote (length (front s.out_queue))) >>= λ (t, n). ok t

-- A socket with nothing to send, and one with a single packet of these bytes.
pub record Holding (bs : List ℕ) (s : Socket) : Type 0 where
  pub packet : NetworkMessage
  pub single : s.out_queue ≡ packet ∷ []
  pub shows : Shows bs packet

pub queue_packet-Holding :
    {bs : List ℕ} (s : Socket) (m : NetworkMessage)
    → s.out_queue ≡ []
    → Shows bs m
    → Holding bs (queue_packet s m)
unfolding queue_packet update_events
queue_packet-Holding s m e h = record { packet = m; single = ap (λ q. q ++ m ∷ []) e; shows = h }

pub queue_packet-IsIdle : (s : Socket) (m : NetworkMessage) → IsIdle s → IsIdle (queue_packet s m)
unfolding queue_packet update_events
queue_packet-IsIdle s m h = record {
  opened = h.opened;
  live = h.live;
  nothing = h.nothing;
  large = h.large;
  small = h.small;
}

-- After the transfer the queue is empty, and the rest of the socket is as before.
pub record Emptied (s t : Socket) : Type 0 where
  pub empty : t.out_queue ≡ []
  pub idle : IsIdle s → IsIdle t
  pub same_buffer : t.in_buffer ≡ s.in_buffer

sent_whole :
    (s : Socket) (m : NetworkMessage) {bs : List ℕ}
    → Shows bs m
    → (sent s m [] (length bs)).out_queue ≡ []
unfolding sent update_events
sent_whole s m {bs} h = rw gone refl
  where
    gone : (get_active_size (read_completed m (length bs)) == 0) ≡ true
    gone = ground (
      arith,
      active_size-Shows (read_completed-Shows (length bs) h (omega arith)),
      length-drop (length bs) bs,
    )

pub transfer-Emptied :
    {bs : List ℕ} {s : Socket}
    → Holding bs s
    → (s.uses_tls && not s.ssl) ≡ false
    → (t : Socket) × (front s.out_queue ≡ bs) × (transfer s ≡ ok t) × Emptied s t
unfolding transfer send send_front attempt_send sent update_events
transfer-Emptied {bs} {s} h live = (
  sent s h.packet [] (length bs),
  ap front h.single ∙ h.shows.unread,
  rw (h.single, h.shows.unread, live, send_front),
  record {
    empty = sent_whole s h.packet h.shows;
    idle = λ i. record {
      opened = i.opened;
      live = i.live;
      nothing = i.nothing;
      large = i.large;
      small = i.small;
    };
    same_buffer = refl;
  },
)
