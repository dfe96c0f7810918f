-- ===== src/Ider/Framing/Numbered.antt =====
-- The outbound frames: frame `i` of the session carries the sequence number `i` modulo 2^32, and
-- the byte counter is their total length.
use ansible_collection_intel.Prelude.{
  ℕ, suc, ◌+◌, ◌%◌, ◌^◌, ◌≡◌, Bool, true, List, [], ◌∷◌, ◌++◌, Bytes, length, get_le32, arith,
  length-append,
}
use ansible_collection_intel.Ider.Target.{Target}
use ansible_collection_intel.Ider.Send.{header, send_command}
use ansible_collection_intel.Ider.Feed.{Engine, engine_of, feed_all}
use ansible_collection_intel.Ider.Moves.{Move, send, Moves-keep}
use ansible_collection_intel.Ider.Framing.Invariants.{IsReady, Moves-feed_all}

-- The frames of a list that begins at frame `k` of the session.
abbrev pub NumberedFrom : ℕ → List Bytes → Type 0
NumberedFrom k [] = Unit
NumberedFrom k (frame ∷ frames) = (get_le32 frame 4 ≡ k % 2 ^ 32) × NumberedFrom (suc k) frames

abbrev pub total : List Bytes → ℕ
total [] = 0
total (frame ∷ frames) = length frame + total frames

pub record IsNumbered (t : Target) : Type 0 where
  pub frames : NumberedFrom 0 t.sent
  pub next : t.out_seq ≡ length t.sent % 2 ^ 32
  pub counted : t.bytes_to_amt ≡ total t.sent

NumberedFrom-append :
    (k : ℕ) (frames : List Bytes) (frame : Bytes)
    → NumberedFrom k frames
    → get_le32 frame 4 ≡ (k + length frames) % 2 ^ 32
    → NumberedFrom k (frames ++ frame ∷ [])
NumberedFrom-append k [] frame h e = (omega (arith, e), tt)
NumberedFrom-append k (f ∷ fs) frame h e =
    (h.0, NumberedFrom-append (suc k) fs frame h.1 (omega (arith, e)))

total-append :
    (frames : List Bytes) (frame : Bytes)
    → total (frames ++ frame ∷ []) ≡ total frames + length frame
total-append [] frame = omega arith
total-append (f ∷ fs) frame = omega (arith, total-append fs frame)

seq-frame :
    (cmdid seq : ℕ) (completed dma : Bool) (payload : Bytes)
    → get_le32 (header cmdid seq completed dma ++ payload) 4 ≡ seq % 2 ^ 32
unfolding header
seq-frame cmdid seq completed dma payload = omega arith

IsNumbered-send :
    (cmdid : ℕ) (payload : Bytes) (completed dma : Bool) (t : Target)
    → IsNumbered t
    → IsNumbered (send_command cmdid payload completed dma t)
unfolding send_command
IsNumbered-send cmdid payload completed dma t h =
    let frame = header cmdid t.out_seq completed dma ++ payload in
    record {
      frames =
          NumberedFrom-append 0 t.sent frame h.frames
            (omega (arith, h.next, seq-frame cmdid t.out_seq completed dma payload));
      next = omega (arith, h.next, length-append t.sent (frame ∷ []));
      counted = omega (arith, h.counted, total-append t.sent frame);
    }

Move-IsNumbered : (t u : Target) → Move true t u → IsNumbered t → IsNumbered u
Move-IsNumbered t u (send cmdid payload completed dma) h =
    IsNumbered-send cmdid payload completed dma t h
Move-IsNumbered t u _ h = record { frames = h.frames; next = h.next; counted = h.counted }

-- Whatever bytes the host sends, in whatever cuts, from a ready state whose frames are numbered: frame
-- i of those sent carries the sequence number i modulo 2^32, the counter is the number of the next
-- frame, and bytes_to_amt is the total length of the frames; also after an error.
pub feed_all-IsNumbered :
    (xs : List Bytes) (s : Engine)
    → IsReady s.target
    → IsNumbered s.target
    → IsNumbered (engine_of (feed_all xs s)).target
feed_all-IsNumbered xs s h n = Moves-keep IsNumbered Move-IsNumbered (Moves-feed_all xs s h) n
