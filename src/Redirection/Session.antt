-- ===== src/Redirection/Session.antt =====
-- redirection.py, class RedirectionSession: its state and its socket plumbing. The peer is a
-- parameter: what the n-th call of `recv` and of `sendall` comes to. Texts are their UTF-8 bytes.
use ansible_collection_intel.Prelude.{
  ℕ, zero, suc, ◌+◌, Bool, true, false, not, Option, List, [], ◌∷◌, ◌++◌, Bytes, length, drop, take,
  at, get_le32, ltb, ◌==◌, if◌then◌else◌,
}
use ansible_collection_intel.Errors.{Result, ok, err, refuse, connection, timeout, protocol}
use ansible_collection_intel.Effect.{Effect, ◌>>=◌, ◌>>◌, lift}

-- One `recv`: some bytes, none where the peer has closed, or an exception.
pub data Received : Type 0 where
  chunk : Bytes → Received
  recv_timeout recv_failed : Received

-- One `sendall`.
pub data Sending : Type 0 where
  handed_over send_timeout send_failed : Sending

pub record Peer : Type 0 where
  -- what `socket_factory` raises, if anything
  pub opening : Result (Unit {0})
  pub recv : ℕ → Received
  pub sending : ℕ → Sending
  -- `getpeercert(binary_form=True)`; the outer `none` where the socket has no such method
  pub certificate : Option (Option Bytes)

-- Python's libraries: hexadecimal digests, whether bytes are UTF-8, and the random cnonce.
pub record Crypto : Type 0 where
  pub md5_hex : Bytes → Bytes
  pub sha256_hex : Bytes → Bytes
  pub is_utf8 : Bytes → Bool
  pub cnonce : Bytes

-- The arguments of `__init__`; `pin` is as `__init__` has normalised it.
pub record Settings : Type 0 where
  pub username : Bytes
  pub password : Bytes
  pub use_tls : Bool
  pub pin : Option Bytes
  pub start_frame : Bytes

-- The fields that change, the number of `recv` calls made, and what was handed to the socket.
pub record Session : Type 0 where
  pub connected : Bool
  pub buf : Bytes
  pub received : ℕ
  pub sent : List Bytes

abbrev pub Io : Type 0 → Type 0
Io A = Effect Session A

-- `RedirectionSession.__init__`
abbrev pub new_session : Session
new_session = record { connected = false; buf = []; received = 0; sent = [] }

-- `_connected_socket`
unfoldable pub connected_socket : Io (Unit {0})
connected_socket s = (refuse (not s.connected) connection, s)

-- `close`
unfoldable pub close : Io (Unit {0})
close s = (ok tt, record s { connected = false })

unfoldable pub sending_result : Sending → Result (Unit {0})
sending_result handed_over = ok tt
sending_result send_timeout = err (timeout true)
sending_result send_failed = err connection

-- `sock.sendall(data)` and its exceptions
unfoldable pub send_all : Peer → Bytes → Io (Unit {0})
unfolding sending_result
send_all peer bytes s =
    (sending_result (peer.sending (length s.sent)), record s { sent = s.sent ++ bytes ∷ [] })

-- `_send`
unfoldable pub send : Peer → Bytes → Io (Unit {0})
unfolding connected_socket send_all
send peer bytes = do connected_socket; send_all peer bytes

-- What the loop of `_fill` does with one `recv`; `again` is the rounds after it.
unfoldable pub take_chunk : Io (Unit {0}) → Received → Io (Unit {0})
take_chunk again recv_timeout s = (err (timeout false), record s { received = suc s.received })
take_chunk again recv_failed s = (err connection, record s { received = suc s.received })
take_chunk again (chunk []) s = (err connection, record s { received = suc s.received })
take_chunk again (chunk (b ∷ bs)) s =
    again (record s { buf = s.buf ++ b ∷ bs; received = suc s.received })

-- The loop of `_fill`, on fuel: every round that goes on brings a byte at least.
unfoldable pub fill_loop : ℕ → Peer → ℕ → Io (Unit {0})
unfolding take_chunk
fill_loop zero peer min_bytes s = (ok tt, s)
fill_loop (suc fuel) peer min_bytes s =
    let more = take_chunk (fill_loop fuel peer min_bytes) (peer.recv s.received) s in
    if ltb (length s.buf) min_bytes then more else (ok tt, s)

-- `_fill`
unfoldable pub fill : Peer → ℕ → Io (Unit {0})
unfolding connected_socket fill_loop
fill peer min_bytes = do connected_socket; fill_loop min_bytes peer min_bytes

-- Reads the buffer.
unfoldable pub peek : Io Bytes
peek s = (ok s.buf, s)

-- `del self._buf[:n]`
unfoldable pub discard : ℕ → Io (Unit {0})
discard n s = (ok tt, record s { buf = drop n s.buf })

-- `_read_start_session_reply`
unfoldable pub read_start_session_reply : Peer → Io (Unit {0})
unfolding fill peek discard
read_start_session_reply peer = do
  fill peer 13
  buf ← peek
  lift (refuse (not (at buf 0 == 0x11)) protocol)
  lift (refuse (not (at buf 1 == 0)) protocol)
  fill peer (13 + at buf 12)
  discard (13 + at buf 12)

-- status, auth type and auth data
pub record AuthReply : Type 0 where
  pub status : ℕ
  pub auth_type : ℕ
  pub auth_data : Bytes

-- What `_read_auth_reply` returns: the header fields, and the slice that they announce.
unfoldable pub auth_reply : Bytes → Bytes → Result AuthReply
auth_reply buf whole = ok (record {
  status = at buf 1;
  auth_type = at buf 4;
  auth_data = take (get_le32 buf 5) (drop 9 whole);
})

-- `_read_auth_reply`
unfoldable pub read_auth_reply : Peer → Io AuthReply
unfolding fill peek discard auth_reply
read_auth_reply peer = do
  fill peer 9
  buf ← peek
  lift (refuse (not (at buf 0 == 0x14)) protocol)
  fill peer (9 + get_le32 buf 5)
  whole ← peek
  discard (9 + get_le32 buf 5)
  lift (auth_reply buf whole)
