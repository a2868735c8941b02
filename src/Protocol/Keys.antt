-- ===== src/Protocol/Keys.antt =====
-- The server's last reply at the client.
use necroauth.Prelude.{
  ℕ, ◌≡◌, ◌+◌, true, List, ◌∷◌, ◌++◌, length, ok, le→leb, take, drop, take-append_length,
  drop-append_length, arith, ap, ◌∙◌, sym, of_le, length-append,
}
use necroauth.AuthCodes.{SocketStatus}
use necroauth.NetworkMessage.{read_at}
use necroauth.Socket.{closing}
use necroauth.Client.Session.{Session, handle_proof_response, read_error}

-- The session after the keys have arrived.
abbrev pub authenticated : Session → List ℕ → List ℕ → Session
authenticated s key greetcode = record s {
  status = SocketStatus.authed;
  account = record s.account { session_key = key; greetcode = greetcode; has_authenticated = true };
  socket = closing s.socket;
}

take_front : (n : ℕ) (xs ys : List ℕ) → length xs ≡ n → take n (xs ++ ys) ≡ xs
take_front n xs ys e = ap (λ k. take k (xs ++ ys)) (sym e) ∙ take-append_length xs ys

drop_front : (n : ℕ) (xs ys : List ℕ) → length xs ≡ n → drop n (xs ++ ys) ≡ ys
drop_front n xs ys e = ap (λ k. drop k (xs ++ ys)) (sym e) ∙ drop-append_length xs ys

-- When the reply of a login stands at the front of the client's in-buffer, with a key and a greetcode
-- of 16 bytes each, the handler takes both over, marks the account as authenticated and closes the
-- connection.
pub handle_proof_response-authenticated :
    (s : Session) (key greetcode rest : List ℕ)
    → s.socket.in_buffer.bytes ≡ 1 ∷ 0 ∷ 32 ∷ 0 ∷ key ++ (greetcode ++ rest)
    → length key ≡ 16
    → length greetcode ≡ 16
    → handle_proof_response s ≡ ok (authenticated s key greetcode, true)
unfolding handle_proof_response read_error read_at of_le
handle_proof_response-authenticated s key greetcode rest e k g = rw (
  e,
  le→leb 2 (length (1 ∷ 0 ∷ 32 ∷ 0 ∷ key ++ (greetcode ++ rest))) (omega arith),
  le→leb 20 (length (1 ∷ 0 ∷ 32 ∷ 0 ∷ key ++ (greetcode ++ rest))) (omega (arith, total)),
  le→leb 36 (length (1 ∷ 0 ∷ 32 ∷ 0 ∷ key ++ (greetcode ++ rest))) (omega (arith, total)),
  take_front 16 key (greetcode ++ rest) k,
  drop_front 16 key (greetcode ++ rest) k,
  take_front 16 greetcode rest g,
)
  where
    total : length (key ++ (greetcode ++ rest)) ≡ 16 + (16 + length rest)
    total = omega (arith, length-append key (greetcode ++ rest), length-append greetcode rest)
