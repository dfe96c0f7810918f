-- ===== src/Ider/Media.antt =====
-- ider.py, class MediaImage: one backing file behind an IDE-R device slot. The file system is a
-- parameter; the open file is the list of its bytes, which `write` changes in place. Each
-- image has bytes of its own, as images on different files have, and an open file raises no OSError.
pub mod Overwrite
pub mod Inside
pub mod Opened
use ansible_collection_intel.Prelude.{
  ℕ, ◌+◌, ◌-◌, ◌/◌, ◌%◌, ◌^◌, Bool, true, false, not, ◌&&◌, ◌||◌, Option, none, some, String, List,
  [], ◌∷◌, ◌++◌, map, Bytes, length, take, drop, replicate, ltb, ◌==◌, str_eq, if◌then◌else◌,
}
use ansible_collection_intel.Errors.{
  Result, ok, err, ◌>>=◌, ◌>>◌, refuse, protocol, value_error, os_error,
}

-- DEVICE_FLOPPY and DEVICE_CDROM
pub data Device : Type 0 where
  floppy cdrom : Device

unfoldable pub device_code : Device → ℕ
device_code floppy = 0xa0
device_code cdrom = 0xb0

abbrev pub is_cdrom : Device → Bool
is_cdrom floppy = false
is_cdrom cdrom = true

-- `if device_code not in (DEVICE_FLOPPY, DEVICE_CDROM): raise`
unfoldable pub device_of_code : ℕ → Result Device
device_of_code n = if n == 0xa0 then ok floppy else if n == 0xb0 then ok cdrom else err value_error

-- An absolute path by its components; `[]` is the root.
abbrev pub FilePath : Type 0
FilePath = List String

unfoldable pub path_eq : FilePath → FilePath → Bool
path_eq [] [] = true
path_eq [] (y ∷ q) = false
path_eq (x ∷ p) [] = false
path_eq (x ∷ p) (y ∷ q) = str_eq x y && path_eq p q

-- `PurePath.parents`, the longest first
unfoldable pub parents : FilePath → List FilePath
parents [] = []
parents (x ∷ p) = map (λ q. x ∷ q) (parents p) ++ [] ∷ []

unfoldable pub path_mem : FilePath → List FilePath → Bool
unfolding path_eq
path_mem p [] = false
path_mem p (q ∷ qs) = path_eq p q || path_mem p qs

pub record FileSystem : Type 0 where
  pub is_symlink : FilePath → Bool
  -- `Path.resolve(strict=True)`; `none` is an OSError
  pub resolve : FilePath → Option FilePath
  -- the bytes of a file; `none` where `stat` fails
  pub file : FilePath → Option Bytes
  -- `open(path, mode)`: may it be opened, `true` for "r+b"
  pub may_open : FilePath → Bool → Bool

pub record MediaImage : Type 0 where
  pub path : FilePath
  pub device : Device
  pub sector_shift : ℕ
  pub size : ℕ
  pub blocks : ℕ
  pub writable : Bool
  pub bytes_read : ℕ
  pub bytes_written : ℕ
  pub media_change_reported : Bool
  -- the backing file as it is now: another process may change it while it is open
  pub content : Bytes

abbrev pub or_os_error {ℓ} : {A : Type ℓ} → Option A → Result A
or_os_error none = err os_error
or_os_error (some a) = ok a

unfoldable pub check_inside : FileSystem → FilePath → Option FilePath → Result (Unit {0})
unfolding path_eq path_mem parents
check_inside fs resolved none = ok tt
check_inside fs resolved (some directory) = do
  allowed ← or_os_error (fs.resolve directory)
  refuse (not (path_eq allowed resolved) && not (path_mem allowed (parents resolved))) value_error

-- `_validate_path`
unfoldable pub validate_path : FileSystem → FilePath → Option FilePath → Result FilePath
unfolding check_inside
validate_path fs path allowed_directory = do
  refuse (fs.is_symlink path) value_error
  resolved ← or_os_error (fs.resolve path)
  check_inside fs resolved allowed_directory
  ok resolved

abbrev pub shift_of : Device → ℕ
shift_of floppy = 9
shift_of cdrom = 11

abbrev pub new_image : FilePath → Device → Bool → Bytes → MediaImage
new_image resolved device writable content = record {
  path = resolved;
  device = device;
  sector_shift = shift_of device;
  size = length content;
  blocks = length content / 2 ^ shift_of device;
  writable = writable;
  bytes_read = 0;
  bytes_written = 0;
  media_change_reported = false;
  content = content;
}

-- `MediaImage.__init__`
unfoldable pub open_image : FileSystem → FilePath → ℕ → Bool → Option FilePath → Result MediaImage
unfolding device_of_code validate_path
open_image fs path code writable allowed_directory = do
  device ← device_of_code code
  refuse (is_cdrom device && writable) value_error
  resolved ← validate_path fs path allowed_directory
  content ← or_os_error (fs.file resolved)
  refuse (not (length content % 512 == 0)) value_error
  refuse (not (fs.may_open resolved writable)) os_error
  ok (new_image resolved device writable content)

-- `MediaImage.read`: seek and read stop at the end of the file
unfoldable pub read_data : MediaImage → ℕ → ℕ → Bytes
read_data image offset n = take n (drop offset image.content)

unfoldable pub read : MediaImage → ℕ → ℕ → Bytes × MediaImage
unfolding read_data
read image offset n =
    let found = read_data image offset n in
    (found, record image { bytes_read = image.bytes_read + length found })

-- A write into a file at an offset; past the end the gap reads as zeros.
unfoldable pub overwrite : Bytes → ℕ → Bytes → Bytes
overwrite content offset bytes =
    take offset (content ++ replicate (offset - length content) 0)
    ++ (bytes ++ drop (offset + length bytes) content)

-- `MediaImage.write`
unfoldable pub write : MediaImage → ℕ → Bytes → Result MediaImage
unfolding overwrite
write image offset bytes = do
  refuse (not image.writable) protocol
  refuse (ltb image.size (offset + length bytes)) protocol
  ok (record image {
    content = overwrite image.content offset bytes;
    bytes_written = image.bytes_written + length bytes;
  })
