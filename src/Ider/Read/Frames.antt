-- ===== src/Ider/Read/Frames.antt =====
-- ider.py `_pump_read` and `_send_data_to_host`: the frames that a read ought to send, and one round
-- of the loop as a step towards them.
use ansible_collection_intel.Prelude.{
  ℕ, zero, suc, ◌+◌, ◌-◌, ◌%◌, ◌^◌, ◌≤◌, ◌<◌, ◌≡◌, refl, sym, ap, ap₂, ◌∙◌, subst, ◌⊎◌, inl, inr,
  Bool, true, false, not, ◌&&◌, Option, none, some, List, [], ◌∷◌, ◌++◌, append_assoc, Bytes, All,
  concat, length, ltb, le32, if◌then◌else◌, ◌/◌, lt→ltb, ◌==◌, if_false, arith,
}
use ansible_collection_intel.Ider.Command.{cmd_data_to_host}
use ansible_collection_intel.Ider.Media.{Device, device_code, read_data}
use ansible_collection_intel.Ider.Target.{Target, ReadRequest, put_image}
use ansible_collection_intel.Ider.Send.{
  header, data_payload, data_prefix, data_suffix, send_data_to_host,
}
use ansible_collection_intel.Ider.Read.{
  chunk_size, send_chunk, read_chunk, next_read, end_read, after_chunk, pump_step, pump_with,
  pump_read,
}
use ansible_collection_intel.Ider.Read.Total.{IsAlone}

-- The bytes in front of the data of a DATA_TO_HOST frame, laid out as docs/protocol-notes.md does:
-- the command, the attributes, the number, and then the length, again for PIO, and the device.
abbrev pub frame_head : Device → Bool → ℕ → ℕ → ℕ → Bytes
frame_head device dma attributes seq n =
    0x54 ∷ 0 ∷ 0 ∷ attributes ∷ le32 (seq % 2 ^ 32)
    ++ (0
        ∷ (n % 256)
        ∷ (n / 256 % 256)
        ∷ 0
        ∷ (if dma then 0xb4 else 0xb5)
        ∷ 0
        ∷ 2
        ∷ 0
        ∷ ((if dma then 0 else n) % 256)
        ∷ ((if dma then 0 else n) / 256 % 256)
        ∷ device_code device
        ∷ 0x58
        ∷ [])

-- The frame for one piece of the data, with the final status where it is the last.
abbrev pub data_frame : Device → Bool → Bool → ℕ → Bytes → Bytes
data_frame device true dma seq piece =
    frame_head device dma (if dma then 3 else 2) seq (length piece)
    ++ 0x85 ∷ 0 ∷ 3 ∷ 0 ∷ 0 ∷ 0 ∷ device_code device ∷ 0x50 ∷ 0 ∷ 0 ∷ 0 ∷ 0 ∷ 0 ∷ 0 ∷ piece
data_frame device false dma seq piece =
    frame_head device dma (if dma then 1 else 0) seq (length piece)
    ++ 0 ∷ 0 ∷ 0 ∷ 0 ∷ 0 ∷ 0 ∷ 0 ∷ 0 ∷ 0 ∷ 0 ∷ 0 ∷ 0 ∷ 0 ∷ 0 ∷ piece

-- What `_send_data_to_host` sends is this frame.
pub sent_frame :
    (device : Device) (completed dma : Bool) (seq : ℕ) (piece : Bytes)
    → header cmd_data_to_host seq completed dma
        ++ data_payload (device_code device) completed piece dma
      ≡ data_frame device completed dma seq piece
unfolding header data_payload data_prefix data_suffix
sent_frame device true true seq piece = refl
sent_frame device true false seq piece = refl
sent_frame device false true seq piece = refl
sent_frame device false false seq piece = refl

abbrev is_last : List Bytes → Bool
is_last [] = true
is_last (piece ∷ pieces) = false

-- The frames for the pieces of a read, numbered from `seq`; only the last is completed.
abbrev pub data_frames : Device → Bool → ℕ → List Bytes → List Bytes
data_frames device dma seq [] = []
data_frames device dma seq (piece ∷ pieces) =
    data_frame device (is_last pieces) dma seq piece
    ∷ data_frames device dma ((seq + 1) % 2 ^ 32) pieces

-- A piece is not empty, and fits the buffer where one was negotiated.
abbrev pub FitsBuffer : ℕ → Bytes → Type 0
FitsBuffer readbfr piece = (0 < length piece) × ((readbfr ≡ 0) ⊎ (length piece ≤ readbfr))

-- The state `u` has sent `slice` after the frames of `t`, and nothing else.
pub record IsDelivered (slice : Bytes) (device : Device) (dma : Bool) (t u : Target) : Type 0 where
  pub pieces : List Bytes
  pub whole : concat pieces ≡ slice
  pub sizes : All (FitsBuffer t.session_info.readbfr) pieces
  pub frames : u.sent ≡ t.sent ++ data_frames device dma t.out_seq pieces
  pub finished : u.read_state ≡ none

pub pump_read-none : (fuel : ℕ) (t : Target) → t.read_state ≡ none → pump_read fuel t ≡ t
unfolding pump_read
pump_read-none zero t e = refl
pump_read-none (suc fuel) t e = by_state t.read_state e
  where
    by_state : (s : Option ReadRequest) → s ≡ none → pump_with (pump_read fuel) s t ≡ t
    by_state none h = unfold pump_with in refl
    by_state (some r) h = cc

pub pump_read-some :
    (fuel : ℕ) (t : Target) (state : ReadRequest)
    → t.read_state ≡ some state
    → pump_read (suc fuel) t ≡ pump_read fuel (pump_step state t)
unfolding pump_read pump_with
pump_read-some fuel t state e = ap (λ s. pump_with (pump_read fuel) s t) e

module _ (state : ReadRequest) (t : Target) (alone : IsAlone t) where
  pub after_more : 0 < state.remaining → after_chunk state t ≡ record t { read_state = some state }
  unfolding after_chunk
  after_more h = simp (lt→ltb 0 state.remaining h, alone.1)

  next_none :
      (queue : List ReadRequest) → queue ≡ [] → next_read queue t ≡ record t { read_state = none }
  unfolding next_read
  next_none [] e = refl
  next_none (r ∷ rs) e = cc

  pub after_last : state.remaining ≡ 0 → after_chunk state t ≡ record t { read_state = none }
  unfolding after_chunk end_read
  after_last h =
      if_false _ _ (end_read t) (ap (λ n. ltb 0 n && not t.reset_pending) h)
      ∙ if_false t.reset_pending _ (next_read t.read_queue t) alone.1
      ∙ next_none t.read_queue alone.0

pub chunk_bounds :
    (readbfr remaining : ℕ)
    → 0 < remaining
    → (0 < chunk_size readbfr remaining)
      × (chunk_size readbfr remaining ≤ remaining)
      × ((readbfr ≡ 0) ⊎ (chunk_size readbfr remaining ≤ readbfr))
unfolding chunk_size
chunk_bounds zero remaining h = (omega arith, omega arith, inl refl)
chunk_bounds (suc k) remaining h = (ground arith, ground arith, inr (ground arith))

-- The request after a piece of `n` bytes.
abbrev pub advance : ReadRequest → ℕ → ReadRequest
advance state n = record state {
  byte_offset = state.byte_offset + n;
  remaining = state.remaining - n;
}

-- The state when a piece has been read from the image.
abbrev pub after_read : ReadRequest → Bytes → Target → Target
after_read state piece t =
    put_image state.image
      (record (t.images state.image) {
        bytes_read = (t.images state.image).bytes_read + length piece;
      })
      t

-- One round of the loop that got a piece of the file.
abbrev pub after_piece : ReadRequest → Bytes → Target → Target
after_piece state piece t = after_chunk (advance state (length piece)) (
    send_data_to_host (device_code state.device) (state.remaining - length piece == 0) piece
      state.dma (after_read state piece t))

pub pump_step_piece :
    (state : ReadRequest) (t : Target) (piece : Bytes)
    → read_data
        (t.images state.image)
        state.byte_offset
        (chunk_size t.session_info.readbfr state.remaining)
      ≡ piece
    → 0 < length piece
    → pump_step state t ≡ after_piece state piece t
unfolding pump_step read_chunk
pump_step_piece state t [] e h = absurd (omega arith)
pump_step_piece state t (b ∷ bs) e h = ap (λ p. rest (send_chunk state p (after_read state p t))) e
  where
    rest : ReadRequest × Target → Target
    rest r = after_chunk r.0 r.1

is_last-concat :
    (pieces : List Bytes) (slice : Bytes)
    → concat pieces ≡ slice
    → 0 < length slice
    → is_last pieces ≡ false
is_last-concat [] slice e h = absurd (omega (arith, ap length e))
is_last-concat (p ∷ ps) slice e h = refl

-- One more piece in front of those that were delivered after it.
pub IsDelivered-cons :
    (piece slice : Bytes) (device : Device) (dma : Bool) (t w u : Target)
    → FitsBuffer t.session_info.readbfr piece
    → w.sent ≡ t.sent ++ data_frame device false dma t.out_seq piece ∷ []
    → w.out_seq ≡ (t.out_seq + 1) % 2 ^ 32
    → w.session_info.readbfr ≡ t.session_info.readbfr
    → 0 < length slice
    → IsDelivered slice device dma w u
    → IsDelivered (piece ++ slice) device dma t u
IsDelivered-cons piece slice device dma t w u fits sent seq buffer h d = record {
  pieces = piece ∷ d.pieces;
  whole = ap (λ x. piece ++ x) d.whole;
  sizes = (fits, subst (λ k. All (FitsBuffer k) d.pieces) buffer d.sizes);
  frames =
      d.frames
      ∙ ap₂ (λ x k. x ++ data_frames device dma k d.pieces) sent seq
      ∙ append_assoc t.sent (data_frame device false dma t.out_seq piece ∷ []) _
      ∙ ap
          (λ b.
            t.sent
            ++ data_frame device b dma t.out_seq piece
              ∷ data_frames device dma ((t.out_seq + 1) % 2 ^ 32) d.pieces)
          (sym (is_last-concat d.pieces slice d.whole h));
  finished = d.finished;
}
