-- ===== src/Ider/Media/Overwrite.antt =====
-- What a write does to the bytes of a file.
use ansible_collection_intel.Prelude.{
  ℕ, ◌+◌, ◌≤◌, ◌≡◌, Bytes, length, length-append, length-take, length-drop, length-replicate, arith,
}
use ansible_collection_intel.Ider.Media.{overwrite}

ruleset sizes = (arith, length-append, length-take, length-drop, length-replicate)

-- A write that ends inside `n` bytes leaves a file of at most `n` bytes at most that long.
pub length-overwrite_le :
    (content bytes : Bytes) (offset n : ℕ)
    → offset + length bytes ≤ n
    → length content ≤ n
    → length (overwrite content offset bytes) ≤ n
unfolding overwrite
length-overwrite_le content bytes offset n h k =
    rw (length-append, length-append, length-take, length-append, length-replicate, length-drop)
      (omega arith)

-- A write inside a file keeps its length.
pub length-overwrite :
    (content bytes : Bytes) (offset : ℕ)
    → offset + length bytes ≤ length content
    → length (overwrite content offset bytes) ≡ length content
unfolding overwrite
length-overwrite content bytes offset h =
    rw (length-append, length-append, length-take, length-append, length-replicate, length-drop)
      (omega arith)
