-- ===== src/Ider/Safety.antt =====
-- The invariant of the IDE-R target: every image is as MediaImage.__init__ made it up to its
-- counters and its bytes, the slots hold images of their own device, and a pending write lies
-- inside a writable floppy image. Each mutation keeps it.
pub mod Requests
pub mod Dispatch
use ansible_collection_intel.Prelude.{
  ℕ, ◌+◌, ◌-◌, ◌*◌, ◌≤◌, ◌<◌, ◌≡◌, refl, sym, ap, subst, ◌∙◌, inl, inr, Bool-cases, leb, ==_iff,
  Bool, true, false, Option, none, some, Bytes, length, ◌==◌, arith,
}
use ansible_collection_intel.Ider.Media.{MediaImage, Device, floppy, cdrom, shift_of, overwrite}
use ansible_collection_intel.Ider.Media.Overwrite.{length-overwrite_le}
use ansible_collection_intel.Ider.Target.{Target, PendingWrite, put_image}
use ansible_collection_intel.Ider.Send.{send_command}
use ansible_collection_intel.Ider.Moves.{
  PendingFits, image_written, after_data, Move, send, count_read, report_change, set_session,
  set_stopped, set_enabled, set_toggle, set_errors, set_reads, drop_write, ask_write, put_data,
  Moves, Moves-keep,
}

abbrev pub sector_size : Device → ℕ
sector_size floppy = 512
sector_size cdrom = 2048

pub record ImageIsValid (image : MediaImage) : Type 0 where
  pub shift : image.sector_shift ≡ shift_of image.device
  pub whole : image.blocks * sector_size image.device ≤ image.size
  pub read_only : image.device ≡ cdrom → image.writable ≡ false
  -- the file has not grown past the size that it had when it was opened
  pub bounded : length image.content ≤ image.size

pub record IsSafe (t : Target) : Type 0 where
  pub valid : (r : ℕ) → ImageIsValid (t.images r)
  pub in_floppy : (r : ℕ) → t.floppy_slot ≡ some r → (t.images r).device ≡ floppy
  pub in_cdrom : (r : ℕ) → t.cdrom_slot ≡ some r → (t.images r).device ≡ cdrom
  pub pending : (p : PendingWrite) → t.pending_write ≡ some p → PendingFits (t.images p.image) p

-- What a mutation may change of an image: its counters, its flag and its bytes.
pub record SameMedium (a b : MediaImage) : Type 0 where
  pub device : b.device ≡ a.device
  pub shift : b.sector_shift ≡ a.sector_shift
  pub size : b.size ≡ a.size
  pub blocks : b.blocks ≡ a.blocks
  pub writable : b.writable ≡ a.writable

SameMedium-refl : (a : MediaImage) → SameMedium a a
SameMedium-refl a = record {
  device = refl;
  shift = refl;
  size = refl;
  blocks = refl;
  writable = refl;
}

ImageIsValid-SameMedium :
    {a b : MediaImage}
    → SameMedium a b
    → length b.content ≤ b.size
    → ImageIsValid a
    → ImageIsValid b
ImageIsValid-SameMedium same bound v = record {
  shift = same.shift ∙ v.shift ∙ ap shift_of (sym same.device);
  whole = rw (same.blocks, same.device, same.size) v.whole;
  read_only = λ e. same.writable ∙ v.read_only (sym same.device ∙ e);
  bounded = bound;
}

PendingFits-SameMedium :
    {a b : MediaImage} {p : PendingWrite} → SameMedium a b → PendingFits a p → PendingFits b p
PendingFits-SameMedium same f = record {
  writable = same.writable ∙ f.writable;
  inside = rw same.size f.inside;
  unfinished = f.unfinished;
}

-- New images of the same media, under the same slots and the same pending write.
module _ (t : Target) (images : ℕ → MediaImage)
    (same : (j : ℕ) → SameMedium (t.images j) (images j))
    (bound : (j : ℕ) → length (images j).content ≤ (images j).size) where
  IsSafe-images : IsSafe t → IsSafe (record t { images = images })
  IsSafe-images s = record {
    valid = λ j. ImageIsValid-SameMedium (same j) (bound j) (s.valid j);
    in_floppy = λ j e. (same j).device ∙ s.in_floppy j e;
    in_cdrom = λ j e. (same j).device ∙ s.in_cdrom j e;
    pending = λ p e. PendingFits-SameMedium (same p.image) (s.pending p e);
  }

-- A property of the images that holds at the reference that is put holds of all.
pub images-put_image :
    (P : ℕ → MediaImage → Type 0) (r : ℕ) (image : MediaImage) (t : Target)
    → P r image
    → ((j : ℕ) → P j (t.images j))
    → (j : ℕ) → P j ((put_image r image t).images j)
images-put_image P r image t here others j = elim (Bool-cases (j == r)) [
  | inl e ↦ rw e (subst (λ k. P k image) (sym ((==_iff j r).0 e)) here)
  | inr e ↦ rw e (others j)
]

module _ (r : ℕ) (image : MediaImage) (t : Target) (same : SameMedium (t.images r) image) where
  IsSafe-put_image : length image.content ≤ image.size → IsSafe t → IsSafe (put_image r image t)
  IsSafe-put_image bound s =
      IsSafe-images t (put_image r image t).images
        (images-put_image (λ j x. SameMedium (t.images j) x) r image t same
          (λ j. SameMedium-refl (t.images j)))
        (images-put_image (λ j x. length x.content ≤ x.size) r image t bound
          (λ j. (s.valid j).bounded))
        s

-- The pending write that is left after some of its bytes.
module _ (image : MediaImage) (p q : PendingWrite) (n : ℕ) (left : after_data p n ≡ some q) where
  image-after_data : q.image ≡ p.image
  image-after_data = ground arith

  PendingFits-after_data : PendingFits image p → PendingFits image q
  PendingFits-after_data f = record {
    writable = f.writable;
    inside = ground (arith, f.inside);
    unfinished = ground arith;
  }

module _ (t : Target) (p : PendingWrite) (bytes : Bytes) (asked : t.pending_write ≡ some p)
    (fits : length bytes ≤ p.expected_length - p.received) (s : IsSafe t) where
  abbrev written_image : MediaImage
  written_image = image_written (t.images p.image) (p.byte_offset + p.received) bytes

  SameMedium-written : SameMedium (t.images p.image) written_image
  SameMedium-written = record {
    device = refl;
    shift = refl;
    size = refl;
    blocks = refl;
    writable = refl;
  }

  bounded-written : length written_image.content ≤ written_image.size
  bounded-written =
      length-overwrite_le (t.images p.image).content bytes (p.byte_offset + p.received)
        (t.images p.image).size
        (omega (arith, (s.pending p asked).inside, (s.pending p asked).unfinished))
        (s.valid p.image).bounded

  IsSafe-put_data :
      IsSafe
        (record (put_image p.image written_image t) { pending_write = after_data p (length bytes) })
  IsSafe-put_data =
      let u = IsSafe-put_image p.image written_image t SameMedium-written bounded-written s in
      record {
        valid = u.valid;
        in_floppy = u.in_floppy;
        in_cdrom = u.in_cdrom;
        pending = λ q e.
            PendingFits-after_data ((put_image p.image written_image t).images q.image) p q
              (length bytes) e
              (subst (λ k. PendingFits ((put_image p.image written_image t).images k) p)
                (sym (image-after_data (t.images p.image) p q (length bytes) e))
                (u.pending p asked));
      }

-- The invariant is kept by every mutation.
pub Move-IsSafe : {reads : Bool} (t u : Target) → Move reads t u → IsSafe t → IsSafe u
unfolding send_command
Move-IsSafe t u (count_read r n) s =
    IsSafe-put_image r _ t
      (record { device = refl; shift = refl; size = refl; blocks = refl; writable = refl })
      (s.valid r).bounded s
Move-IsSafe t u (report_change r) s =
    IsSafe-put_image r _ t
      (record { device = refl; shift = refl; size = refl; blocks = refl; writable = refl })
      (s.valid r).bounded s
Move-IsSafe t u (drop_write) s = record {
  valid = s.valid;
  in_floppy = s.in_floppy;
  in_cdrom = s.in_cdrom;
  pending = λ p e. cc;
}
Move-IsSafe t u (ask_write p f) s = record {
  valid = s.valid;
  in_floppy = s.in_floppy;
  in_cdrom = s.in_cdrom;
  pending = λ q e. let e' : p ≡ q = cc e in subst (λ x. PendingFits (t.images x.image) x) e' f;
}
Move-IsSafe t u (put_data p bytes asked fits) s = IsSafe-put_data t p bytes asked fits s
Move-IsSafe t u _ s = record {
  valid = s.valid;
  in_floppy = s.in_floppy;
  in_cdrom = s.in_cdrom;
  pending = s.pending;
}

pub Moves-IsSafe : {reads : Bool} {t u : Target} → Moves reads t u → IsSafe t → IsSafe u
Moves-IsSafe = Moves-keep IsSafe Move-IsSafe
