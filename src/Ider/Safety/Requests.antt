-- ===== src/Ider/Safety/Requests.antt =====
-- The write path is a sequence of mutations from a safe state, and the errors of MediaImage.write
-- are never reached there.
use ansible_collection_intel.Prelude.{
  le→not_ltb, ℕ, ◌+◌, ◌-◌, ◌*◌, ◌≤◌, ◌≡◌, refl, ap, subst, ◌⊎◌, inl, inr, Bool, Bool-cases, true,
  false, not, Option, none, some, Bytes, length, ltb, leb, ◌==◌, arith,
}
use ansible_collection_intel.Errors.{ok, protocol, struct_error}
use ansible_collection_intel.Ider.Media.{MediaImage, Device, floppy, cdrom, write}
use ansible_collection_intel.Ider.Target.{
  Target, PendingWrite, Outcome, done, raised, state_of, put_image, device_image,
}
use ansible_collection_intel.Ider.Send.{send_get_data_from_host, send_command_end_response}
use ansible_collection_intel.Ider.Write.{
  write_request_at, scsi_write_request, count_received, accept_data, data_from_host,
}
use ansible_collection_intel.Ider.Moves.{
  PendingFits, image_written, after_data, send, ask_write, put_data, drop_write, Moves, next,
  Moves-one, Moves-trans,
}
use ansible_collection_intel.Ider.Moves.Replies.{Moves-end_response}
use ansible_collection_intel.Ider.Safety.{ImageIsValid, IsSafe, sector_size}

module _ (r lba blocks : ℕ) (image : MediaImage) where
  abbrev request : PendingWrite
  request = record {
    device = floppy;
    image = r;
    byte_offset = lba * 512;
    expected_length = 512 * blocks;
    received = 0;
  }

  request_fits :
      ImageIsValid image
      → image.device ≡ floppy
      → ltb image.blocks (lba + blocks) ≡ false
      → (blocks == 0) ≡ false
      → not image.writable ≡ false
      → PendingFits image request
  request_fits v e inside some_blocks w =
      let whole : image.blocks * 512 ≤ image.size =
        subst (λ d. image.blocks * sector_size d ≤ image.size) e v.whole in
      record { writable = ground arith; inside = ground (arith, whole); unfinished = ground arith }

pub Moves-write_request_at :
    {reads : Bool} (r lba blocks : ℕ) (t : Target)
    → ImageIsValid (t.images r)
    → (t.images r).device ≡ floppy
    → Moves reads t (write_request_at r (t.images r) lba blocks t)
unfolding write_request_at send_get_data_from_host
Moves-write_request_at r lba blocks t v e =
    elim (Bool-cases (ltb (t.images r).blocks (lba + blocks))) [
      | inl b ↦ rw b (Moves-end_response t _ _ _ _ _)
      | inr b ↦ elim (Bool-cases (blocks == 0)) [
        | inl c ↦ rw (b, c) (Moves-end_response t _ _ _ _ _)
        | inr c ↦ elim (Bool-cases (not (t.images r).writable)) [
          | inl d ↦ simp (b, c, d) (Moves-end_response t _ _ _ _ _)
          | inr d ↦
              simp (b, c, d)
                (next
                  (Moves-one (
                    ask_write (request r lba blocks (t.images r))
                      (request_fits r lba blocks (t.images r) v e b c d)))
                  (send _ _ _ _))
        ]
      ]
    ]

pub Moves-scsi_write_request :
    {reads : Bool} (device : Device) (lba blocks : ℕ) (t : Target)
    → IsSafe t
    → Moves reads t (scsi_write_request device (device_image device t) lba blocks t)
unfolding device_image
Moves-scsi_write_request cdrom lba blocks t s =
    unfold scsi_write_request in Moves-end_response t _ _ _ _ _
Moves-scsi_write_request {reads} floppy lba blocks t s = by_slot t.floppy_slot refl
  where
    by_slot :
        (slot : Option ℕ)
        → t.floppy_slot ≡ slot
        → Moves reads t (scsi_write_request floppy slot lba blocks t)
    by_slot none e = unfold scsi_write_request in Moves-end_response t _ _ _ _ _
    by_slot (some r) e =
        unfold scsi_write_request in
        Moves-write_request_at r lba blocks t (s.valid r) (s.in_floppy r e)

module _ (t : Target) (p : PendingWrite) (bytes : Bytes) (asked : t.pending_write ≡ some p)
    (fits : ltb (p.expected_length - p.received) (length bytes) ≡ false) (s : IsSafe t) where
  write-eq-ok :
      write (t.images p.image) (p.byte_offset + p.received) bytes
      ≡ ok (image_written (t.images p.image) (p.byte_offset + p.received) bytes)
  unfolding write
  write-eq-ok =
      let f = s.pending p asked in
      let w : not (t.images p.image).writable ≡ false = ap not f.writable in
      let inside : ltb (t.images p.image).size (p.byte_offset + p.received + length bytes) ≡ false =
        le→not_ltb (t.images p.image).size (p.byte_offset + p.received + length bytes)
          (ground (arith, f.inside, f.unfinished)) in
      simp (w, inside)

  abbrev with_data : Target
  with_data =
      record (put_image p.image
        (image_written (t.images p.image) (p.byte_offset + p.received) bytes) t) {
          pending_write = after_data p (length bytes);
        }

  Moves-with_data : {reads : Bool} → Moves reads t with_data
  Moves-with_data = Moves-one (put_data p bytes asked (ground arith))

  Moves-count_received :
      {reads : Bool}
      → Moves reads t (
          count_received p (length bytes) (
            put_image p.image
              (image_written (t.images p.image) (p.byte_offset + p.received) bytes)
              t))
  unfolding count_received send_command_end_response
  Moves-count_received {reads} =
      elim (Bool-cases (leb p.expected_length (p.received + length bytes))) [
        | inl b ↦ rw b (next (rw b at (Moves-with_data {reads = reads})) (send _ _ _ _))
        | inr b ↦ rw b (rw b at (Moves-with_data {reads = reads}))
      ]

-- A message from a safe state: its mutations, and what it may raise.
abbrev pub Behaves : Bool → Target → Outcome → Type 0
Behaves reads t (done u) = Moves reads t u
Behaves reads t (raised e u) =
    Moves reads t u × ((e ≡ struct_error) ⊎ ((e ≡ protocol) × (u.stopped ≡ true)))

Behaves-accept_data :
    (reads : Bool) (slot : Option PendingWrite) (bytes : Bytes) (t : Target)
    → t.pending_write ≡ slot
    → IsSafe t
    → Behaves reads t (accept_data slot bytes t)
unfolding accept_data
Behaves-accept_data reads none bytes t e s = Moves-end_response t _ _ _ _ _
Behaves-accept_data reads (some p) bytes t e s =
    elim (Bool-cases (ltb (p.expected_length - p.received) (length bytes))) [
      | inl b ↦ rw b (Moves-trans (Moves-one drop_write) (Moves-end_response _ _ _ _ _ _))
      | inr b ↦ rw (b, write-eq-ok t p bytes e b s) (Moves-count_received t p bytes e b s)
    ]

pub Behaves-data_from_host :
    (reads : Bool) (message : Bytes) (t : Target)
    → IsSafe t
    → Behaves reads t (data_from_host message t)
unfolding data_from_host
Behaves-data_from_host reads message t s = Behaves-accept_data reads t.pending_write _ t refl s

pub Moves-of_Behaves :
    (reads : Bool) (t : Target) (o : Outcome) → Behaves reads t o → Moves reads t (state_of o)
Moves-of_Behaves reads t (done u) h = h
Moves-of_Behaves reads t (raised e u) h = h.0
