-- ===== src/Socket/Send.antt =====
-- The out-queue as a stream of bytes: packets join it at the end, and `Send` takes from its front.
use necroauth.Prelude.{
  ℕ, ◌≤◌, ◌≡◌, inl, inr, refl, sym, ap, ap₂, ◌∙◌, Bool, true, false, List, [], ◌∷◌, ◌++◌, length,
  Option, none, some, ok, pos, drop, drop_append_le, append_assoc, append-nil, arith, Bool-cases,
  ==_iff, ◌==◌, if◌then◌else◌, not, ◌&&◌,
}
use mathlib.Core.Path.{subst}
use necroauth.NetworkMessage.{NetworkMessage, get_active_size, read_completed}
use necroauth.NetworkMessage.Contents.{IsValid, contents}
use necroauth.NetworkMessage.Write.{Shows}
use necroauth.NetworkMessage.Buffer.{active_size-Shows, read_completed-Shows}
use necroauth.Socket.{
  Socket, Events, wrote, has_pending_data, update_events, queue_packet, send, send_front,
  attempt_send, sent, polled, is_filled,
}

-- All bytes that wait to be sent, in their order.
abbrev pub pending : List NetworkMessage → List ℕ
pending [] = []
pending (m ∷ ms) = contents m ++ pending ms

abbrev pub AllValid : List NetworkMessage → Type 0
AllValid [] = Unit {0}
AllValid (m ∷ ms) = IsValid m × AllValid ms

-- The poll loop looks for `POLLOUT` exactly while there is something to send.
abbrev pub Polls : Bool → Option Events → Type 0
Polls pending none = Unit {0}
Polls pending (some e) = (e.pollin ≡ true) × (e.pollout ≡ pending)

polled-Polls : (b : Bool) (p : Option Events) → Polls b (polled b p)
polled-Polls b none = tt
polled-Polls b (some e) = (refl, refl)

pending-append :
    (ms : List NetworkMessage) (m : NetworkMessage)
    → pending (ms ++ m ∷ []) ≡ pending ms ++ contents m
pending-append [] m = append-nil (contents m)
pending-append (k ∷ ms) m =
    ap (◌++◌ (contents k)) (pending-append ms m)
    ∙ sym (append_assoc (contents k) (pending ms) (contents m))

AllValid-append :
    (ms : List NetworkMessage) (m : NetworkMessage)
    → AllValid ms
    → IsValid m
    → AllValid (ms ++ m ∷ [])
AllValid-append [] m v w = (w, tt)
AllValid-append (k ∷ ms) m v w = (v.0, AllValid-append ms m v.1 w)

-- What a socket owes to the stream: its bytes, and the events that the poll loop asks for.
pub record Sends (bs : List ℕ) (s : Socket) : Type 0 where
  pub valid : AllValid s.out_queue
  pub stream : pending s.out_queue ≡ bs
  pub polls : Polls (has_pending_data s) s.pfd

-- Queueing a valid packet puts its bytes at the end of the stream, and asks the socket's pollfd, if
-- it has one, for POLLOUT.
pub queue_packet-Sends :
    {bs xs : List ℕ} {s : Socket} {m : NetworkMessage}
    → Sends bs s
    → Shows xs m
    → Sends (bs ++ xs) (queue_packet s m)
unfolding queue_packet update_events
queue_packet-Sends {bs} {xs} {s} {m} h k = record {
  valid = AllValid-append s.out_queue m h.valid k.valid;
  stream = pending-append s.out_queue m ∙ ap₂ ◌++◌ h.stream k.unread;
  polls = polled-Polls (is_filled (s.out_queue ++ m ∷ [])) s.pfd;
}

sent_queue :
    (out : NetworkMessage) (rest : List NetworkMessage) (n : ℕ)
    → IsValid out
    → AllValid rest
    → n ≤ length (contents out)
    → let out' = read_completed out n in
      let q = if get_active_size out' == 0 then rest else out' ∷ rest in
      AllValid q × (pending q ≡ drop n (contents out ++ pending rest))
sent_queue out rest n v vs h = elim (Bool-cases (get_active_size out' == 0)) [
  | inl done ↦ rw done (vs, sym (split ∙ ap (λ l. l ++ pending rest) (gone done)))
  | inr more ↦ rw more ((k.valid, vs), ap (λ l. l ++ pending rest) k.unread ∙ sym split)
]
  where
    out' : NetworkMessage
    out' = read_completed out n

    k : Shows (drop n (contents out)) out'
    k = read_completed-Shows n (record { valid = v; unread = refl }) h

    split : drop n (contents out ++ pending rest) ≡ drop n (contents out) ++ pending rest
    split = drop_append_le n (contents out) (pending rest) h

    empty : (l : List ℕ) → length l ≡ 0 → l ≡ []
    empty [] e = refl
    empty (x ∷ l) e = absurd (omega arith)

    gone : (get_active_size out' == 0) ≡ true → drop n (contents out) ≡ []
    gone done =
        empty (drop n (contents out))
          (omega (arith, active_size-Shows k, (==_iff (get_active_size out') 0).0 done))

-- If the socket does not lack a TLS object that it uses, and the first packet has at least the
-- reported number of bytes, sending takes these from the front of the stream, whether the write was
-- short or whole, and keeps the events in step.
pub send-Sends :
    {bs : List ℕ} {s : Socket} (out : NetworkMessage) (rest : List NetworkMessage) (n : ℕ)
    → Sends bs s
    → s.out_queue ≡ out ∷ rest
    → n ≤ length (contents out)
    → (s.uses_tls && not s.ssl) ≡ false
    → (t : Socket) × (send s (wrote n) ≡ ok (t, pos n)) × Sends (drop n bs) t
unfolding send send_front attempt_send sent update_events
send-Sends {bs} {s} out rest n h e k live = (
  sent s out rest n,
  rw (e, live, send_front),
  record {
    valid = q.0;
    stream = q.1 ∙ ap (drop n) (sym (ap pending e) ∙ h.stream);
    polls = polled-Polls (is_filled queue) s.pfd;
  },
)
  where
    v : AllValid (out ∷ rest)
    v = subst AllValid e h.valid

    queue : List NetworkMessage
    queue =
        if get_active_size (read_completed out n) == 0 then rest else read_completed out n ∷ rest

    q : AllValid queue × (pending queue ≡ drop n (contents out ++ pending rest))
    q = sent_queue out rest n v.0 v.1 k
