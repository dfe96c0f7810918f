-- ===== src/Ider/Framing/Tests.antt =====
-- A session at a concrete engine: a writable floppy image and a CD image, and the messages of a
-- host that opens the session, pings, and reads a sector.
use ansible_collection_intel.Ider.Send.{send_command}
use ansible_collection_intel.Prelude.{
  String, true_not_false, eq_iff, sym, ℕ, ◌==◌, ◌≡◌, refl, Bool, true, false, none, some, List, [],
  ◌∷◌, ◌++◌, Bytes, replicate, concat, take, drop, if◌then◌else◌, arith,
}
use ansible_collection_intel.Errors.{ok}
use ansible_collection_intel.Ider.Command.{fixed_length}
use ansible_collection_intel.Ider.Media.{
  MediaImage, floppy, cdrom, new_image, FilePath, FileSystem, open_image,
}
use ansible_collection_intel.Ider.Target.{Target, state_of, new_target, attach_at, attach_device}
use ansible_collection_intel.Ider.Read.{scsi_read, pump_read, read_work}
use ansible_collection_intel.Ider.Read.Total.{IsIdle, pump_read_ends}
use ansible_collection_intel.Ider.Read.Frames.{IsDelivered}
use ansible_collection_intel.Ider.Read.Delivery.{scsi_read-IsDelivered}
use ansible_collection_intel.Ider.Dispatch.{dispatch, run_inbound, inbound}
use ansible_collection_intel.Ider.Feed.{
  Engine, fed, engine_of, feed, feed_all, new_engine, feed_unless, feed_loop, next_frame,
  feed_round, run_frame, after_dispatch, go_on, take_frame, peek_length, frame_of_length, buffered,
}
use ansible_collection_intel.Ider.Moves.{Moves}
use ansible_collection_intel.Ider.Media.Opened.{
  new_image-ImageIsValid, IsImageOf, open_image-IsImageOf, open_image-IsInside,
}
use ansible_collection_intel.Ider.Framing.Idle.{IsIdle-dispatch}
use ansible_collection_intel.Ider.Framing.Total.{Ended, feed_loop_ends}
use ansible_collection_intel.Ider.Media.Inside.{IsInside}
use ansible_collection_intel.Ider.Safety.{ImageIsValid}
use ansible_collection_intel.Ider.Framing.Invariants.{
  IsReady, IsReadyAfter, feed_all-IsReady, Moves-feed_all,
}
use ansible_collection_intel.Ider.Framing.ReadOnly.{content-feed_all}
use ansible_collection_intel.Ider.Framing.Numbered.{IsNumbered, feed_all-IsNumbered}
use ansible_collection_intel.Ider.Framing.Setup.{
  new_target-IsReady, attach_device-IsReady, new_target-IsNumbered, attach_device-IsNumbered,
}
use ansible_collection_intel.Ider.Framing.Chunks.{feed-concat}

abbrev pub disk : MediaImage
disk = new_image ("media" ∷ "disk.img" ∷ []) floppy true (replicate 1024 7)

abbrev pub boot_cd : MediaImage
boot_cd = new_image ("media" ∷ "boot.iso" ∷ []) cdrom false (replicate 4096 9)

abbrev pub test_images : ℕ → MediaImage
test_images r = if r == 0 then disk else boot_cd

test_images-ImageIsValid : (r : ℕ) → ImageIsValid (test_images r)
test_images-ImageIsValid r = by_test (r == 0)
  where
    by_test : (b : Bool) → ImageIsValid (if b then disk else boot_cd)
    by_test true = new_image-ImageIsValid _ floppy true (replicate 1024 7) refl
    by_test false = new_image-ImageIsValid _ cdrom false (replicate 4096 9) refl

abbrev pub test_target : Target
test_target = attach_device 1 (attach_device 0 (new_target 8 30000 0 5000 test_images))

pub test_target-IsReady : IsReady test_target
test_target-IsReady = attach_device-IsReady 1 _ (
    attach_device-IsReady 0 _
      (new_target-IsReady 8 30000 0 5000 test_images test_images-ImageIsValid))

test_target-IsNumbered : IsNumbered test_target
test_target-IsNumbered =
    attach_device-IsNumbered 1 _
      (attach_device-IsNumbered 0 _ (new_target-IsNumbered 8 30000 0 5000 test_images))

abbrev test_engine : Engine
test_engine = new_engine test_target

-- A read of the whole of sector 0 under way.
abbrev test_reading : Target
test_reading = record test_target {
  read_state =
      some (record { device = floppy; image = 0; byte_offset = 0; remaining = 512; dma = false });
}

-- KEEPALIVE_PING with the sequence number `seq`
abbrev ping : ℕ → Bytes
ping seq = 0x44 ∷ 0 ∷ 0 ∷ 0 ∷ seq ∷ 0 ∷ 0 ∷ 0 ∷ []

-- COMMAND_WRITTEN: READ_10 of sector 0 of the floppy
abbrev read_sector : ℕ → Bytes
read_sector seq =
    (0x50 ∷ 0 ∷ 0 ∷ 0 ∷ seq ∷ 0 ∷ 0 ∷ 0 ∷ [])
    ++ (replicate 8 0 ++ (0x28 ∷ 0 ∷ 0 ∷ 0 ∷ 0 ∷ 0 ∷ 0 ∷ 0 ∷ 1 ∷ 0 ∷ 0 ∷ 0 ∷ []))

-- The messages, cut inside a header.
abbrev cuts : List Bytes
cuts = take 5 (ping 0) ∷ (drop 5 (ping 0) ++ read_sector 1) ∷ []

feed_all-IsReady_example : IsReadyAfter (feed_all cuts test_engine)
unfolding new_engine attach_device
feed_all-IsReady_example = feed_all-IsReady cuts test_engine test_target-IsReady

Moves-feed_all_example : Moves true test_target (engine_of (feed_all cuts test_engine)).target
unfolding new_engine attach_device
Moves-feed_all_example = Moves-feed_all cuts test_engine test_target-IsReady

str_differs : Path String "disk.img" "boot.iso" → ⊥
str_differs e = true_not_false (sym ((eq_iff "disk.img" "boot.iso").1 e))

boot_cd_unshared :
    (j : ℕ)
    → (test_target.images j).path ≡ (test_target.images 1).path
    → (test_target.images j).writable ≡ false
unfolding attach_device new_target
boot_cd_unshared j = by_test (j == 0)
  where
    other_name : disk.path ≡ boot_cd.path → ⊥
    other_name e = str_differs (cc e)

    by_test :
        (b : Bool)
        → (if b then disk else boot_cd).path ≡ boot_cd.path
        → (if b then disk else boot_cd).writable ≡ false
    by_test true e = absurd (other_name e)
    by_test false e = refl

content-feed_all_example :
    ((engine_of (feed_all cuts test_engine)).target.images 1).content ≡ boot_cd.content
unfolding new_engine attach_device new_target
content-feed_all_example = content-feed_all cuts test_engine 1 test_target-IsReady boot_cd_unshared

feed_all-IsNumbered_example : IsNumbered (engine_of (feed_all cuts test_engine)).target
unfolding new_engine attach_device
feed_all-IsNumbered_example =
    feed_all-IsNumbered cuts test_engine test_target-IsReady test_target-IsNumbered

feed_loop_ends_example : Ended (feed_loop 28 (buffered (read_sector 0) test_engine))
unfolding new_engine
feed_loop_ends_example = feed_loop_ends 28 (buffered (read_sector 0) test_engine) (omega arith)

IsIdle-dispatch_example : IsIdle (state_of (dispatch (read_sector 0) test_target))
IsIdle-dispatch_example =
    IsIdle-dispatch (read_sector 0) test_target test_target-IsReady.safe test_target-IsReady.idle

-- Two pings, cut inside the first header.
abbrev ping_cuts : List Bytes
ping_cuts = take 5 (ping 0) ∷ (drop 5 (ping 0) ++ ping 1) ∷ []

abbrev after_pings : Engine
after_pings = engine_of (feed_all ping_cuts test_engine)

feed-concat_example : feed (concat ping_cuts) test_engine ≡ fed after_pings
unfolding feed_all feed_unless feed_loop next_frame feed_round run_frame after_dispatch go_on
    take_frame peek_length frame_of_length fixed_length dispatch run_inbound inbound new_engine
    new_target attach_device attach_at send_command
feed-concat_example =
    feed-concat ((drop 5 (ping 0) ++ ping 1) ∷ []) (take 5 (ping 0)) test_engine after_pings refl

-- The second sector of the floppy image.
scsi_read-IsDelivered_example :
    IsDelivered
      (take 512 (drop 512 disk.content))
      floppy
      false
      test_target
      (scsi_read floppy (some 0) 1 1 false test_target)
unfolding attach_device new_target
scsi_read-IsDelivered_example =
    scsi_read-IsDelivered floppy 0 1 1 false test_target test_target-IsReady.idle (omega arith)
      (omega arith) (omega arith)

pump_read_ends_example : (pump_read 513 test_reading).read_state ≡ none
unfolding read_work attach_device new_target
pump_read_ends_example = pump_read_ends 513 test_reading (omega arith)

-- A file system with one directory and one image in it.
abbrev test_files : FileSystem
test_files = record {
  is_symlink = λ p. false;
  resolve = λ p. some p;
  file = λ p. some (replicate 1024 7);
  may_open = λ p w. true;
}

abbrev disk_path : FilePath
disk_path = "media" ∷ "disk.img" ∷ []

disk_opened : open_image test_files disk_path 0xa0 true (some ("media" ∷ [])) ≡ ok disk
unfolding open_image
disk_opened = refl

open_image-IsImageOf_example : IsImageOf test_files 0xa0 true disk
open_image-IsImageOf_example =
    open_image-IsImageOf test_files disk_path 0xa0 true (some ("media" ∷ [])) disk disk_opened

open_image-IsInside_example :
    (test_files.is_symlink disk_path ≡ false)
    × (test_files.resolve disk_path ≡ some disk.path)
    × IsInside ("media" ∷ []) disk.path
open_image-IsInside_example =
    open_image-IsInside test_files disk_path ("media" ∷ []) ("media" ∷ []) 0xa0 true disk refl
      disk_opened
