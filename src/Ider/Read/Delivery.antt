-- ===== src/Ider/Read/Delivery.antt =====
-- A read command sends exactly the bytes of the sectors asked for, in pieces that fit the
-- negotiated buffer, the last one marked as completed.
use ansible_collection_intel.Prelude.{
  ℕ, zero, suc, ◌+◌, ◌-◌, ◌*◌, ◌^◌, ◌≤◌, ◌<◌, ◌≡◌, refl, sym, ap, ◌∙◌, subst, ◌⊎◌, inl, inr, Bool,
  true, false, Option, none, some, [], ◌∷◌, ◌++◌, append-nil, Bytes, length, take, drop, take-add,
  drop-add, length-take, length-drop, le→not_ltb, ◌==◌, ==-refl, if_true, if_false, arith,
}
use native.Mathlib.Nat.{mul-pos, one-le-pow, add-mul, mul-le-mul_right}
use ansible_collection_intel.Ider.Media.{MediaImage, Device, device_code, read_data}
use ansible_collection_intel.Ider.Target.{Target, ReadRequest}
use ansible_collection_intel.Ider.Send.{send_command, send_data_to_host}
use ansible_collection_intel.Ider.Read.{
  chunk_size, after_chunk, pump_step, pump_read, read_work, enqueue_read, read_at, scsi_read,
}
use ansible_collection_intel.Ider.Read.Frames.{
  data_frame, sent_frame, FitsBuffer, IsDelivered, pump_read-none, pump_read-some, after_more,
  after_last, chunk_bounds, advance, after_read, pump_step_piece, IsDelivered-cons,
}
use ansible_collection_intel.Ider.Read.Total.{IsAlone, IsIdle}

not_zero : (n : ℕ) → 0 < n → (n == 0) ≡ false
not_zero zero h = absurd (omega arith)
not_zero (suc n) h = ground arith

zero-pos : (n : ℕ) → (n ≡ 0) ⊎ (0 < n)
zero-pos zero = inl refl
zero-pos (suc n) = inr (omega arith)

-- The bytes that a request asks for.
abbrev wanted : ReadRequest → Target → Bytes
wanted state t = take state.remaining (drop state.byte_offset (t.images state.image).content)

module _ (state : ReadRequest) (t : Target) (alone : IsAlone t) (pos : 0 < state.remaining)
    (room : state.byte_offset + state.remaining ≤ length (t.images state.image).content) where
  abbrev n : ℕ
  n = chunk_size t.session_info.readbfr state.remaining

  abbrev piece : Bytes
  piece = read_data (t.images state.image) state.byte_offset n

  abbrev sent_state : Target
  sent_state =
      send_data_to_host (device_code state.device) (state.remaining - n == 0) piece state.dma
        (after_read state piece t)

  length-piece : length piece ≡ n
  unfolding read_data
  length-piece =
      let b = chunk_bounds t.session_info.readbfr state.remaining pos in
      omega (
        arith,
        b,
        room,
        length-take n (drop state.byte_offset (t.images state.image).content),
        length-drop state.byte_offset (t.images state.image).content,
      )

  round : pump_step state t ≡ after_chunk (advance state n) sent_state
  round =
      pump_step_piece state t piece refl
        (rw length-piece (chunk_bounds t.session_info.readbfr state.remaining pos).0)
      ∙ ap
          (λ k. after_chunk (advance state k) (
            send_data_to_host (device_code state.device) (state.remaining - k == 0) piece state.dma
              (after_read state piece t)))
          length-piece

  fits_buffer : FitsBuffer t.session_info.readbfr piece
  fits_buffer =
      let b = chunk_bounds t.session_info.readbfr state.remaining pos in rw length-piece (b.0, b.2)

  same_content :
      ((after_read state piece t).images state.image).content ≡ (t.images state.image).content
  same_content =
      ap (λ (x : MediaImage). x.content)
        (if_true (state.image == state.image) _ _ (==-refl state.image))

  wanted_split : piece ++ wanted (advance state n) (after_read state piece t) ≡ wanted state t
  unfolding read_data
  wanted_split =
      let c = (t.images state.image).content in
      let rest : ℕ = state.remaining - n in
      let all : n + rest ≡ state.remaining =
        omega (arith, chunk_bounds t.session_info.readbfr state.remaining pos) in
      ap (λ x. piece ++ take rest (drop (state.byte_offset + n) x)) same_content
      ∙ ap (λ x. piece ++ take rest x) (drop-add state.byte_offset n c)
      ∙ sym (take-add n rest (drop state.byte_offset c))
      ∙ ap (λ k. take k (drop state.byte_offset c)) all

  wanted_last : state.remaining - n ≡ 0 → piece ≡ wanted state t
  unfolding read_data
  wanted_last h =
      let all : n ≡ state.remaining =
        omega (arith, h, chunk_bounds t.session_info.readbfr state.remaining pos) in
      ap (λ k. take k (drop state.byte_offset (t.images state.image).content)) all

  frame_sent :
      (b : Bool)
      → (state.remaining - n == 0) ≡ b
      → sent_state.sent ≡ t.sent ++ data_frame state.device b state.dma t.out_seq piece ∷ []
  unfolding send_data_to_host send_command
  frame_sent b h =
      ap (λ frame. t.sent ++ frame ∷ [])
        (sent_frame state.device (state.remaining - n == 0) state.dma t.out_seq piece
          ∙ ap (λ c. data_frame state.device c state.dma t.out_seq piece) h)

  sent-IsAlone : IsAlone sent_state
  unfolding send_data_to_host send_command
  sent-IsAlone = alone

  -- The last piece ends the read.
  last_piece :
      state.remaining - n ≡ 0
      → IsDelivered (wanted state t) state.device state.dma t (pump_step state t)
  last_piece h =
      subst (IsDelivered (wanted state t) state.device state.dma t)
        (sym (round ∙ after_last (advance state n) sent_state sent-IsAlone h))
        (record {
          pieces = piece ∷ [];
          whole = append-nil piece ∙ wanted_last h;
          sizes = (fits_buffer, tt);
          frames = frame_sent true (ap (λ k. k == 0) h);
          finished = refl;
        })

  -- The state in which the loop goes on after a piece that was not the last.
  abbrev going_on : Target
  going_on = record sent_state { read_state = some (advance state n) }

  goes_on : 0 < state.remaining - n → pump_step state t ≡ going_on
  goes_on h = round ∙ after_more (advance state n) sent_state sent-IsAlone h

  next_room :
      (advance state n).byte_offset + (advance state n).remaining
      ≤ length (going_on.images state.image).content
  unfolding send_data_to_host send_command
  next_room =
      rw same_content (omega (arith, room, chunk_bounds t.session_info.readbfr state.remaining pos))

  next_wanted : 0 < state.remaining - n → 0 < length (wanted (advance state n) going_on)
  next_wanted h = omega (
    arith,
    h,
    next_room,
    length-take (state.remaining - n)
        (drop (state.byte_offset + n) (going_on.images state.image).content),
    length-drop (state.byte_offset + n) (going_on.images state.image).content,
  )

  more_piece :
      (u : Target)
      → 0 < state.remaining - n
      → IsDelivered (wanted (advance state n) going_on) state.device state.dma going_on u
      → IsDelivered (wanted state t) state.device state.dma t u
  unfolding send_data_to_host send_command
  more_piece u h d =
      subst (λ x. IsDelivered x state.device state.dma t u) wanted_split
        (IsDelivered-cons piece (wanted (advance state n) going_on) state.device state.dma t
          going_on u fits_buffer (frame_sent false (not_zero (state.remaining - n) h)) refl refl
          (next_wanted h) d)

-- The loop, given the fuel that the request needs, delivers what the request asks for.
pump_delivers :
    (fuel : ℕ) (state : ReadRequest) (t : Target)
    → IsAlone t
    → t.read_state ≡ some state
    → 0 < state.remaining
    → state.byte_offset + state.remaining ≤ length (t.images state.image).content
    → state.remaining ≤ fuel
    → IsDelivered (wanted state t) state.device state.dma t (pump_read fuel t)
pump_delivers zero state t alone e pos room enough = absurd (omega arith)
pump_delivers (suc fuel) state t alone e pos room enough =
    let k : ℕ = n state t alone pos room in
    let Goal : Target → Type 0 = λ u. IsDelivered (wanted state t) state.device state.dma t u in
    subst Goal (sym (pump_read-some fuel t state e)) (elim (zero-pos (state.remaining - k)) [
      | inl h ↦
          let d = last_piece state t alone pos room h in
          subst Goal (sym (pump_read-none fuel (pump_step state t) d.finished)) d
      | inr h ↦
          subst (λ x. Goal (pump_read fuel x)) (sym (goes_on state t alone pos room h))
            (more_piece state t alone pos room (pump_read fuel (going_on state t alone pos room)) h
              (pump_delivers fuel (advance state k) (going_on state t alone pos room)
                (sent-IsAlone state t alone pos room) refl h (next_room state t alone pos room)
                (omega (arith, enough, chunk_bounds t.session_info.readbfr state.remaining pos))))
    ])

enqueue_read-IsDelivered :
    (request : ReadRequest) (s : Option ReadRequest) (t : Target)
    → s ≡ none
    → IsAlone t
    → 0 < request.remaining
    → request.byte_offset + request.remaining ≤ length (t.images request.image).content
    → IsDelivered (wanted request t) request.device request.dma t (enqueue_read request s t)
unfolding enqueue_read read_work
enqueue_read-IsDelivered request none t e alone pos room =
    let u : Target = record t { read_state = some request } in
    let d =
      pump_delivers (read_work (some request) t.read_queue) request u alone refl pos room
        (omega arith) in
    record {
      pieces = d.pieces;
      whole = d.whole;
      sizes = d.sizes;
      frames = d.frames;
      finished = d.finished;
    }
enqueue_read-IsDelivered request (some x) t e alone pos room = cc

span :
    (lba blocks total sector size : ℕ)
    → lba + blocks ≤ total
    → total * sector ≤ size
    → lba * sector + blocks * sector ≤ size
span lba blocks total sector size h k =
    omega (arith, add-mul lba blocks sector, mul-le-mul_right sector h, k)

-- From a state with no read under way, a read of `blocks > 0` sectors inside an image, whose
-- file holds the bytes that the image's sector count promises, sends exactly those bytes as
-- DATA_TO_HOST frames and nothing else: numbered from the next sequence number, no piece empty or
-- larger than the negotiated buffer, only the last marked completed; and no read is under way after it.
pub scsi_read-IsDelivered :
    (device : Device) (r lba blocks : ℕ) (dma : Bool) (t : Target)
    → IsIdle t
    → 0 < blocks
    → lba + blocks ≤ (t.images r).blocks
    → (t.images r).blocks * 2 ^ (t.images r).sector_shift ≤ length (t.images r).content
    → IsDelivered
        (take
          (blocks * 2 ^ (t.images r).sector_shift)
          (drop (lba * 2 ^ (t.images r).sector_shift) (t.images r).content))
        device
        dma
        t
        (scsi_read device (some r) lba blocks dma t)
unfolding scsi_read read_at
scsi_read-IsDelivered device r lba blocks dma t idle pos inside file =
    subst (IsDelivered _ device dma t)
      (sym (
        if_false _ _ _ (le→not_ltb (t.images r).blocks (lba + blocks) inside)
        ∙ if_false _ _ _ (not_zero blocks pos)))
      (enqueue_read-IsDelivered _ t.read_state t idle.0 idle.1
        (mul-pos pos (one-le-pow (t.images r).sector_shift 2 (omega arith)))
        (span lba blocks (t.images r).blocks (2 ^ (t.images r).sector_shift) _ inside file))
