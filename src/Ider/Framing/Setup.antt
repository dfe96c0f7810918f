-- ===== src/Ider/Framing/Setup.antt =====
-- ider.py: `IderEngine.__init__`, `attach_device` and `start` put the target into a state from
-- which the theorems on `feed` speak.
use ansible_collection_intel.Prelude.{ℕ, ◌≡◌, refl, sym, ap, ◌∙◌, some}
use ansible_collection_intel.Ider.Media.{MediaImage, Device, floppy, cdrom}
use ansible_collection_intel.Ider.Target.{Target, new_target, attach_at, attach_device}
use ansible_collection_intel.Ider.Safety.{ImageIsValid}
use ansible_collection_intel.Ider.Framing.Invariants.{IsReady}
use ansible_collection_intel.Ider.Framing.Numbered.{IsNumbered}

some_injective {ℓ} : {A : Type ℓ} {x y : A} → some x ≡ some y → x ≡ y
some_injective h = cc

-- A new engine over valid images is ready, and has numbered its frames.
pub new_target-IsReady :
    (start_mode rx_timeout tx_timeout heartbeat : ℕ) (images : ℕ → MediaImage)
    → ((r : ℕ) → ImageIsValid (images r))
    → IsReady (new_target start_mode rx_timeout tx_timeout heartbeat images)
unfolding new_target
new_target-IsReady start_mode rx_timeout tx_timeout heartbeat images valid = record {
  safe = record { valid = valid; in_floppy = λ r e. cc; in_cdrom = λ r e. cc; pending = λ p e. cc };
  idle = (refl, (refl, refl));
}

attach_at-IsReady :
    (device : Device) (r : ℕ) (t : Target)
    → (t.images r).device ≡ device
    → IsReady t
    → IsReady (attach_at device r t)
unfolding attach_at
attach_at-IsReady floppy r t e h = record {
  safe = record {
    valid = h.safe.valid;
    in_floppy = λ q p. ap (λ k. (t.images k).device) (sym (some_injective p)) ∙ e;
    in_cdrom = h.safe.in_cdrom;
    pending = h.safe.pending;
  };
  idle = h.idle;
}
attach_at-IsReady cdrom r t e h = record {
  safe = record {
    valid = h.safe.valid;
    in_floppy = h.safe.in_floppy;
    in_cdrom = λ q p. ap (λ k. (t.images k).device) (sym (some_injective p)) ∙ e;
    pending = h.safe.pending;
  };
  idle = h.idle;
}

-- Attaching an image puts it into the slot of its own device, and a ready target stays ready.
pub attach_device-IsReady : (r : ℕ) (t : Target) → IsReady t → IsReady (attach_device r t)
unfolding attach_device
attach_device-IsReady r t h = attach_at-IsReady (t.images r).device r t refl h

-- A new engine has sent nothing, and counts from zero.
pub new_target-IsNumbered :
    (start_mode rx_timeout tx_timeout heartbeat : ℕ) (images : ℕ → MediaImage)
    → IsNumbered (new_target start_mode rx_timeout tx_timeout heartbeat images)
unfolding new_target
new_target-IsNumbered start_mode rx_timeout tx_timeout heartbeat images = record {
  frames = tt;
  next = refl;
  counted = refl;
}

attach_at-IsNumbered :
    (device : Device) (r : ℕ) (t : Target) → IsNumbered t → IsNumbered (attach_at device r t)
unfolding attach_at
attach_at-IsNumbered floppy r t h = record { frames = h.frames; next = h.next; counted = h.counted }
attach_at-IsNumbered cdrom r t h = record { frames = h.frames; next = h.next; counted = h.counted }

pub attach_device-IsNumbered : (r : ℕ) (t : Target) → IsNumbered t → IsNumbered (attach_device r t)
unfolding attach_device
attach_device-IsNumbered r t h = attach_at-IsNumbered (t.images r).device r t h
