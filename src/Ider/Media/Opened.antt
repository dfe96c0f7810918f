-- ===== src/Ider/Media/Opened.antt =====
-- ider.py `MediaImage.__init__` and `_validate_path`: what holds of an image that could be opened.
use ansible_collection_intel.Prelude.{
  ℕ, ◌/◌, ◌^◌, ◌*◌, ◌%◌, ◌==◌, ==_iff, ◌+◌, ◌<◌, if_true, if_false, ◌≤◌, ◌≡◌, refl, sym, ap, ◌∙◌,
  subst, inl, inr, Bool, true, false, not, ◌&&◌, Bool-cases, Option, none, some, Bytes, length,
  arith,
}
use ansible_collection_intel.Errors.{
  Error, Result, ok, err, ◌>>=◌, ◌>>◌, refuse, value_error, os_error,
}
use ansible_collection_intel.Ider.Media.{
  Device, floppy, cdrom, is_cdrom, FilePath, FileSystem, MediaImage, or_os_error, check_inside,
  validate_path, shift_of, new_image, device_of_code, device_code, open_image,
}
use ansible_collection_intel.Ider.Media.Inside.{IsInside, IsInside-of_checks}
use ansible_collection_intel.Ider.Safety.{sector_size, ImageIsValid}

-- From a step that returned: what it returned, and the steps after it.
then_ok {ℓ κ μ} :
    {A : Type ℓ} {B : Type κ} {P : Type μ} (m : Result A) (f : A → Result B) (b : B)
    → (m >>= f) ≡ ok b
    → ((a : A) → m ≡ ok a → f a ≡ ok b → P)
    → P
then_ok (ok a) f b h k = k a refl h
then_ok (err e) f b h k = cc

-- From a check that did not refuse.
refuse_ok {ℓ μ} :
    {B : Type ℓ} {P : Type μ} (c : Bool) (e : Error) (m : Result B) (b : B)
    → (refuse c e >> m) ≡ ok b
    → (c ≡ false → m ≡ ok b → P)
    → P
refuse_ok true e m b h k = cc
refuse_ok false e m b h k = k refl h

not_refused : (c : Bool) (e : Error) → refuse c e ≡ ok tt → c ≡ false
not_refused true e h = cc
not_refused false e h = refl

unnegated : (b : Bool) → not b ≡ false → b ≡ true
unnegated true h = refl
unnegated false h = cc

ok_eq {ℓ} : {A : Type ℓ} {x y : A} → ok x ≡ ok y → x ≡ y
ok_eq h = cc

err_not_ok {ℓ} : {A : Type ℓ} {e : Error} {a : A} → err e ≡ ok a → ⊥
err_not_ok h = cc

some_eq {ℓ} : {A : Type ℓ} {x y : A} → some x ≡ some y → x ≡ y
some_eq h = cc

or_os_error_ok {ℓ} : {A : Type ℓ} (o : Option A) (a : A) → or_os_error o ≡ ok a → o ≡ some a
or_os_error_ok none a h = cc
or_os_error_ok (some x) a h = cc

checked-IsInside :
    (fs : FileSystem) (resolved directory allowed : FilePath)
    → fs.resolve directory ≡ some allowed
    → check_inside fs resolved (some directory) ≡ ok tt
    → IsInside allowed resolved
unfolding check_inside
checked-IsInside fs resolved directory allowed d h =
    then_ok (or_os_error (fs.resolve directory)) _ tt h (λ a e k.
      let same : a ≡ allowed = some_eq (sym (or_os_error_ok (fs.resolve directory) a e) ∙ d) in
      subst (λ x. IsInside x resolved) same
        (IsInside-of_checks a resolved (not_refused _ value_error k)))

-- What the checks of a path have found when they let it pass.
record IsValidated (fs : FileSystem) (path : FilePath) (directory : Option FilePath)
    (resolved : FilePath) : Type 0 where
  real : fs.resolve path ≡ some resolved
  direct : fs.is_symlink path ≡ false
  allowed : check_inside fs resolved directory ≡ ok tt

-- What the constructor has done when it returns: the resolved path, a device, and the file's bytes.
record IsOpened (fs : FileSystem) (path : FilePath) (code : ℕ) (writable : Bool)
    (directory : Option FilePath) (image : MediaImage) : Type 0 where
  device : Device
  resolved : FilePath
  content : Bytes
  made : image ≡ new_image resolved device writable content
  coded : device_of_code code ≡ ok device
  found : fs.file resolved ≡ some content
  whole_pieces : length content % 512 ≡ 0
  permitted : fs.may_open resolved writable ≡ true
  read_only : (is_cdrom device && writable) ≡ false
  validated : IsValidated fs path directory resolved

validate_path-IsValidated :
    (fs : FileSystem) (path : FilePath) (directory : Option FilePath) (resolved : FilePath)
    → validate_path fs path directory ≡ ok resolved
    → IsValidated fs path directory resolved
unfolding validate_path
validate_path-IsValidated fs path directory resolved h =
    refuse_ok (fs.is_symlink path) value_error _ resolved h (λ direct h₁.
      then_ok (or_os_error (fs.resolve path)) _ resolved h₁ (λ r real h₂.
        then_ok (check_inside fs r directory) _ resolved h₂ (λ u allowed same.
          let e : r ≡ resolved = cc in
          record {
            real = or_os_error_ok (fs.resolve path) r real ∙ ap some e;
            direct = direct;
            allowed = ap (λ x. check_inside fs x directory) (sym e) ∙ allowed;
          })))

open_image-IsOpened :
    (fs : FileSystem) (path : FilePath) (code : ℕ) (writable : Bool) (directory : Option FilePath)
    (image : MediaImage)
    → open_image fs path code writable directory ≡ ok image
    → IsOpened fs path code writable directory image
unfolding open_image
open_image-IsOpened fs path code writable directory image h =
    then_ok (device_of_code code) _ image h (λ device h₀ h₁.
      refuse_ok (is_cdrom device && writable) value_error _ image h₁ (λ c h₂.
        then_ok (validate_path fs path directory) _ image h₂ (λ resolved v h₃.
          then_ok (or_os_error (fs.file resolved)) _ image h₃ (λ content f h₄.
            refuse_ok (not (length content % 512 == 0)) value_error _ image h₄ (λ d h₅.
              refuse_ok (not (fs.may_open resolved writable)) os_error _ image h₅ (λ o h₆. record {
                device = device;
                resolved = resolved;
                content = content;
                made = cc;
                coded = h₀;
                found = or_os_error_ok (fs.file resolved) content f;
                whole_pieces = (==_iff (length content % 512) 0).0 (unnegated _ d);
                permitted = unnegated _ o;
                read_only = c;
                validated = validate_path-IsValidated fs path directory resolved v;
              }))))))

whole_blocks : (n : ℕ) (device : Device) → n / 2 ^ shift_of device * sector_size device ≤ n
whole_blocks n floppy = omega arith
whole_blocks n cdrom = omega arith

pub new_image-ImageIsValid :
    (resolved : FilePath) (device : Device) (writable : Bool) (content : Bytes)
    → (is_cdrom device && writable) ≡ false
    → ImageIsValid (new_image resolved device writable content)
new_image-ImageIsValid resolved device writable content h = record {
  shift = refl;
  whole = whole_blocks (length content) device;
  read_only = λ e. ap (λ d. is_cdrom d && writable) (sym e) ∙ h;
  bounded = omega arith;
}

-- The image stands on a file of the file system, with the size and the sectors of that file.
pub record IsImageOf (fs : FileSystem) (code : ℕ) (writable : Bool) (image : MediaImage)
    : Type 0 where
  pub valid : ImageIsValid image
  pub backing : fs.file image.path ≡ some image.content
  pub permitted : fs.may_open image.path writable ≡ true
  pub opened_writable : image.writable ≡ writable
  pub coded : device_code image.device ≡ code
  pub size : image.size ≡ length image.content
  pub whole_pieces : image.size % 512 ≡ 0
  -- no whole sector is left out
  pub every_sector : image.size < (image.blocks + 1) * sector_size image.device

every_block : (n : ℕ) (device : Device) → n < (n / 2 ^ shift_of device + 1) * sector_size device
every_block n floppy = omega arith
every_block n cdrom = omega arith

code_of_device :
    (code : ℕ) (device : Device) → device_of_code code ≡ ok device → device_code device ≡ code
unfolding device_of_code device_code
code_of_device code device h = elim (Bool-cases (code == 0xa0)) [
  | inl e ↦
      subst (λ d. device_code d ≡ code) (ok_eq (sym (if_true _ _ _ e) ∙ h))
        (sym ((==_iff code 0xa0).0 e))
  | inr e ↦ elim (Bool-cases (code == 0xb0)) [
    | inl k ↦
        subst (λ d. device_code d ≡ code) (ok_eq (sym (if_false _ _ _ e ∙ if_true _ _ _ k) ∙ h))
          (sym ((==_iff code 0xb0).0 k))
    | inr k ↦ absurd (err_not_ok (sym (if_false _ _ _ e ∙ if_false _ _ _ k) ∙ h))
  ]
]

-- Every image that the constructor returns is valid, of the device of the code that was given, and
-- writable as asked, which the file system permits; its bytes are those of the file at its path, its
-- size is their number, a multiple of 512, and its sectors are all the whole sectors of the file.
pub open_image-IsImageOf :
    (fs : FileSystem) (path : FilePath) (code : ℕ) (writable : Bool) (directory : Option FilePath)
    (image : MediaImage)
    → open_image fs path code writable directory ≡ ok image
    → IsImageOf fs code writable image
open_image-IsImageOf fs path code writable directory image h =
    let o = open_image-IsOpened fs path code writable directory image h in
    subst (IsImageOf fs code writable) (sym o.made) record {
      valid = new_image-ImageIsValid o.resolved o.device writable o.content o.read_only;
      backing = o.found;
      permitted = o.permitted;
      opened_writable = refl;
      coded = code_of_device code o.device o.coded;
      size = refl;
      whole_pieces = o.whole_pieces;
      every_sector = every_block (length o.content) o.device;
    }

-- With an allowed directory, the constructor returns only for a path that is no symbolic link and
-- that resolves to the resolved directory itself or to a path below it, and the image stands on it.
pub open_image-IsInside :
    (fs : FileSystem) (path directory allowed : FilePath) (code : ℕ) (writable : Bool)
    (image : MediaImage)
    → fs.resolve directory ≡ some allowed
    → open_image fs path code writable (some directory) ≡ ok image
    → (fs.is_symlink path ≡ false)
      × (fs.resolve path ≡ some image.path)
      × IsInside allowed image.path
open_image-IsInside fs path directory allowed code writable image d h =
    let o = open_image-IsOpened fs path code writable (some directory) image h in
    subst (λ p. (fs.is_symlink path ≡ false) × (fs.resolve path ≡ some p) × IsInside allowed p)
      (sym (ap (λ (i : MediaImage). i.path) o.made))
      (
        o.validated.direct,
        o.validated.real,
        checked-IsInside fs o.resolved directory allowed d o.validated.allowed,
      )
