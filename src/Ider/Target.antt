-- ===== src/Ider/Target.antt =====
-- ider.py, the fields of class IderEngine that its handlers use, and device attachment. The
-- fields of the inbound framing are in `Feed.Engine`. MediaImage objects are shared by reference,
-- so they stand in a store, `images`, under the numbers that stand for references.
use ansible_collection_intel.Prelude.{
  ℕ, ◌==◌, Bool, false, Option, none, some, List, [], Bytes, if◌then◌else◌,
}
use ansible_collection_intel.Errors.{Error}
use ansible_collection_intel.Ider.Media.{MediaImage, Device, floppy, cdrom}

-- `_PendingWrite`
pub record PendingWrite : Type 0 where
  pub device : Device
  pub image : ℕ
  pub byte_offset : ℕ
  pub expected_length : ℕ
  pub received : ℕ

-- `_ReadRequest`
pub record ReadRequest : Type 0 where
  pub device : Device
  pub image : ℕ
  pub byte_offset : ℕ
  pub remaining : ℕ
  pub dma : Bool

-- `_OpenSessionInfo`
pub record OpenSessionInfo : Type 0 where
  pub major : ℕ
  pub minor : ℕ
  pub fw_major : ℕ
  pub fw_minor : ℕ
  pub readbfr : ℕ
  pub writebfr : ℕ
  pub proto : ℕ
  pub iana : ℕ

pub record Target : Type 0 where
  pub start_mode : ℕ
  pub rx_timeout : ℕ
  pub tx_timeout : ℕ
  pub heartbeat : ℕ
  pub out_seq : ℕ
  pub stopped : Bool
  -- the MediaImage objects by reference, and `_devices`
  pub images : ℕ → MediaImage
  pub floppy_slot : Option ℕ
  pub cdrom_slot : Option ℕ
  pub session_info : OpenSessionInfo
  pub session_open : Bool
  pub enabled : Bool
  pub feature_toggle_ok : Option Bool
  pub errors_seen : List ℕ
  pub pending_write : Option PendingWrite
  pub read_state : Option ReadRequest
  pub read_queue : List ReadRequest
  pub reset_pending : Bool
  pub bytes_to_amt : ℕ
  -- the frames handed to the `send` callable, oldest first
  pub sent : List Bytes

-- A handler returns, or raises and leaves the state as it was when it raised.
pub data Outcome : Type 0 where
  done : Target → Outcome
  raised : Error → Target → Outcome

abbrev pub state_of : Outcome → Target
state_of (done t) = t
state_of (raised e t) = t

abbrev pub no_session_info : OpenSessionInfo
no_session_info = record {
  major = 0;
  minor = 0;
  fw_major = 0;
  fw_minor = 0;
  readbfr = 0;
  writebfr = 0;
  proto = 0;
  iana = 0;
}

-- `IderEngine.__init__`, over a store of images
unfoldable pub new_target : ℕ → ℕ → ℕ → ℕ → (ℕ → MediaImage) → Target
new_target start_mode rx_timeout tx_timeout heartbeat images = record {
  start_mode = start_mode;
  rx_timeout = rx_timeout;
  tx_timeout = tx_timeout;
  heartbeat = heartbeat;
  out_seq = 0;
  stopped = false;
  images = images;
  floppy_slot = none;
  cdrom_slot = none;
  session_info = no_session_info;
  session_open = false;
  enabled = false;
  feature_toggle_ok = none;
  errors_seen = [];
  pending_write = none;
  read_state = none;
  read_queue = [];
  reset_pending = false;
  bytes_to_amt = 0;
  sent = [];
}

-- A method that mutates the object at a reference.
abbrev pub put_image : ℕ → MediaImage → Target → Target
put_image r image t = record t { images = λ j. if j == r then image else t.images j }

unfoldable pub attach_at : Device → ℕ → Target → Target
attach_at floppy r t = record t { floppy_slot = some r }
attach_at cdrom r t = record t { cdrom_slot = some r }

-- `attach_device`
unfoldable pub attach_device : ℕ → Target → Target
unfolding attach_at
attach_device r t = attach_at (t.images r).device r t

-- `device`: `self._devices.get(device_code)`
unfoldable pub device_image : Device → Target → Option ℕ
device_image floppy t = t.floppy_slot
device_image cdrom t = t.cdrom_slot
