-- ===== src/Ider/Framing/ReadOnly.antt =====
-- A read-only image keeps the bytes of its backing file.
use ansible_collection_intel.Prelude.{
  ℕ, ◌≡◌, ◌+◌, refl, sym, ap, ◌∙◌, subst, true, false, false≢true, List, Bytes,
}
use ansible_collection_intel.Ider.Media.{MediaImage}
use ansible_collection_intel.Ider.Target.{Target, put_image}
use ansible_collection_intel.Ider.Send.{send_command}
use ansible_collection_intel.Ider.Feed.{Engine, engine_of, feed_all}
use ansible_collection_intel.Ider.Moves.{
  Move, count_read, report_change, put_data, Moves-keep, image_written,
}
use ansible_collection_intel.Ider.Safety.{IsSafe, Move-IsSafe, images-put_image}
use ansible_collection_intel.Ider.Framing.Invariants.{IsReady, Moves-feed_all}

-- The image at a reference is read-only, and its file holds these bytes.
record IsFrozen (r : ℕ) (content : Bytes) (t : Target) : Type 0 where
  safe : IsSafe t
  read_only : (t.images r).writable ≡ false
  bytes : (t.images r).content ≡ content

module _ (r : ℕ) (content : Bytes) where
  -- A new image at `k` that is frozen if `k` is the reference.
  frozen_at :
      (k : ℕ) (image : MediaImage) (t : Target)
      → (k ≡ r → (image.writable ≡ false) × (image.content ≡ content))
      → IsFrozen r content t
      → (((put_image k image t).images r).writable ≡ false)
        × (((put_image k image t).images r).content ≡ content)
  frozen_at k image t here f =
      images-put_image (λ j x. j ≡ r → (x.writable ≡ false) × (x.content ≡ content)) k image t here
        (λ j e.
          subst (λ i. ((t.images i).writable ≡ false) × ((t.images i).content ≡ content)) (sym e)
            (f.read_only, f.bytes))
        r refl

  same_at :
      (k : ℕ) (image : MediaImage) (t : Target)
      → image.writable ≡ (t.images k).writable
      → image.content ≡ (t.images k).content
      → IsFrozen r content t
      → k ≡ r
      → (image.writable ≡ false) × (image.content ≡ content)
  same_at k image t e g f h = (
    e ∙ ap (λ i. (t.images i).writable) h ∙ f.read_only,
    g ∙ ap (λ i. (t.images i).content) h ∙ f.bytes,
  )

  writable_at :
      (k : ℕ) (t : Target) → (t.images k).writable ≡ true → IsFrozen r content t → k ≡ r → ⊥
  writable_at k t w f h = false≢true (sym f.read_only ∙ ap (λ i. (t.images i).writable) (sym h) ∙ w)

  Move-IsFrozen : (t u : Target) → Move true t u → IsFrozen r content t → IsFrozen r content u
  unfolding send_command
  Move-IsFrozen t u (count_read k n) f =
      let image = record (t.images k) { bytes_read = n } in
      let p = frozen_at k image t (same_at k image t refl refl f) f in
      record {
        safe = Move-IsSafe {reads = true} t u (count_read k n) f.safe;
        read_only = p.0;
        bytes = p.1;
      }
  Move-IsFrozen t u (report_change k) f =
      let image = record (t.images k) { media_change_reported = true } in
      let p = frozen_at k image t (same_at k image t refl refl f) f in
      record {
        safe = Move-IsSafe {reads = true} t u (report_change k) f.safe;
        read_only = p.0;
        bytes = p.1;
      }
  Move-IsFrozen t u (put_data q bytes asked fits) f =
      let w = (f.safe.pending q asked).writable in
      let p =
        frozen_at q.image (image_written (t.images q.image) (q.byte_offset + q.received) bytes) t
          (λ h. absurd (writable_at q.image t w f h)) f in
      record {
        safe = Move-IsSafe {reads = true} t u (put_data q bytes asked fits) f.safe;
        read_only = p.0;
        bytes = p.1;
      }
  Move-IsFrozen t u m f = record {
    safe = Move-IsSafe {reads = true} t u m f.safe;
    read_only = f.read_only;
    bytes = f.bytes;
  }

-- From a ready state, no bytes from the host, in whatever cuts, change the file of an image, where no
-- image on the path of that file is writable.
pub content-feed_all :
    (xs : List Bytes) (s : Engine) (r : ℕ)
    → IsReady s.target
    → ((j : ℕ)
        → (s.target.images j).path ≡ (s.target.images r).path
        → (s.target.images j).writable ≡ false)
    → ((engine_of (feed_all xs s)).target.images r).content ≡ (s.target.images r).content
content-feed_all xs s r h unshared =
    (Moves-keep (IsFrozen r (s.target.images r).content)
      (Move-IsFrozen r (s.target.images r).content) (Moves-feed_all xs s h)
      (record { safe = h.safe; read_only = unshared r refl; bytes = refl })).bytes
