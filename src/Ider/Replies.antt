-- ===== src/Ider/Replies.antt =====
-- ider.py, the SCSI commands that transfer no sectors. `cdb` is the twelve bytes of the command.
use ansible_collection_intel.Prelude.{
  ℕ, ◌+◌, ◌-◌, ◌/◌, ◌%◌, ◌^◌, Bool, true, false, not, ◌&&◌, ◌||◌, Option, none, some, [], ◌∷◌, ◌++◌,
  Bytes, length, take, at, be32, get_be16, ltb, leb, ◌==◌, if◌then◌else◌,
}
use ansible_collection_intel.Errors.{struct_error}
use ansible_collection_intel.Ider.Canned.{
  ms_ls120_disk_page, ms_3f_ls120, ms_floppy_disk_page, ms_3f_floppy, ms_cd_1a, ms_cd_1d, ms_cd_2a,
  ms_3f_cd, ms_floppy_error_recovery, ms_ls120_error_recovery, ms_cd_error_recovery,
  cd_config_profile_list, cd_config_core, cd_config_morphing, cd_config_removable, cd_config_random,
  cd_config_read, cd_config_power, cd_config_timeout, mode_sense_10_page,
}
use ansible_collection_intel.Ider.Media.{MediaImage, Device, floppy, cdrom, device_code, is_cdrom}
use ansible_collection_intel.Ider.Target.{Target, Outcome, done, raised, put_image}
use ansible_collection_intel.Ider.Send.{send_command_end_response, send_data_to_host}

-- `_scsi_test_unit_ready`
unfoldable pub test_unit_ready : Device → Option ℕ → Target → Target
test_unit_ready device none t = send_command_end_response true 2 (device_code device) 0x3a 0 t
test_unit_ready device (some r) t =
    if not (t.images r).media_change_reported
    then send_command_end_response true 6 (device_code device) 0x28 0
        (put_image r (record (t.images r) { media_change_reported = true }) t)
    else send_command_end_response true 0 (device_code device) 0 0 t

mode_sense_6_reply : Device → Option MediaImage → Bool → Target → Target
mode_sense_6_reply device none dma t =
    send_command_end_response true 2 (device_code device) 0x3a 0 t
mode_sense_6_reply device (some image) dma t =
    send_data_to_host (device_code device) true
      (0 ∷ (if is_cdrom device then 5 else 0) ∷ (if image.writable then 0 else 0x80) ∷ 0 ∷ []) dma t

-- `_scsi_mode_sense_6`
unfoldable pub mode_sense_6 : Device → Option MediaImage → Bytes → Bool → Target → Target
unfolding mode_sense_6_reply
mode_sense_6 device image cdb dma t =
    if at cdb 2 == 0x3f && at cdb 3 == 0
    then mode_sense_6_reply device image dma t
    else send_command_end_response true 5 (device_code device) 0x24 0 t

-- `image is None or image.size == 0`
unfoldable pub has_no_medium : Option MediaImage → Bool
has_no_medium none = true
has_no_medium (some image) = image.size == 0

-- `_scsi_read_format_capacities`
unfoldable pub read_format_capacities : Device → Option MediaImage → Bool → Target → Target
unfolding has_no_medium
read_format_capacities device image dma t =
    if has_no_medium image
    then send_command_end_response false 5 (device_code device) 0x24 0 t
    else send_data_to_host (device_code device) true
        (be32 8 ++ 0 ∷ 0 ∷ 0x0b ∷ 0x40 ∷ 2 ∷ 0 ∷ 2 ∷ 0 ∷ []) dma t

-- `struct.pack(">I", image.blocks - 1)` refuses -1 and what does not fit 32 bits.
unfoldable pub capacity_reply : Device → ℕ → ℕ → Bool → Target → Outcome
capacity_reply device blocks device_flags dma t =
    if ltb 0 blocks && leb blocks (2 ^ 32)
    then done (
        send_data_to_host device_flags true
          (be32 (blocks - 1) ++ 0 ∷ 0 ∷ (if is_cdrom device then 8 else 2) ∷ 0 ∷ []) dma t)
    else raised struct_error t

-- `_scsi_read_capacity`
unfoldable pub read_capacity : Device → Option MediaImage → ℕ → Bool → Target → Outcome
unfolding capacity_reply
read_capacity device none device_flags dma t =
    done (send_command_end_response false 2 (device_code device) 0x3a 0 t)
read_capacity device (some image) device_flags dma t =
    if image.size == 0
    then done (send_command_end_response false 2 (device_code device) 0x3a 0 t)
    else capacity_reply device image.blocks device_flags dma t

abbrev toc_msf : Bytes
toc_msf =
    0x00 ∷ 0x12 ∷ 0x01 ∷ 0x01 ∷ 0x00 ∷ 0x14 ∷ 0x01 ∷ 0x00 ∷ 0x00 ∷ 0x00 ∷ 0x02 ∷ 0x00 ∷ 0x00 ∷ 0x14
    ∷ 0xaa ∷ 0x00 ∷ 0x00 ∷ 0x00 ∷ 0x34 ∷ 0x13 ∷ []

abbrev toc_lba : Bytes
toc_lba =
    0x00 ∷ 0x12 ∷ 0x01 ∷ 0x01 ∷ 0x00 ∷ 0x14 ∷ 0x01 ∷ 0x00 ∷ 0x00 ∷ 0x00 ∷ 0x00 ∷ 0x00 ∷ 0x00 ∷ 0x14
    ∷ 0xaa ∷ 0x00 ∷ 0x00 ∷ 0x00 ∷ 0x00 ∷ 0x00 ∷ []

abbrev toc_session : Bytes
toc_session = 0x00 ∷ 0x0a ∷ 0x01 ∷ 0x01 ∷ 0x00 ∷ 0x14 ∷ 0x01 ∷ 0x00 ∷ 0x00 ∷ 0x00 ∷ 0x00 ∷ 0x00 ∷ []

-- `cdb[2] & 0x07`, or `cdb[9] >> 6` where that is 0
unfoldable pub toc_format : Bytes → ℕ
toc_format cdb = if at cdb 2 % 8 == 0 then at cdb 9 / 64 else at cdb 2 % 8

-- `_scsi_read_toc`; `cdb[1] & 0x02` is the second bit
unfoldable pub read_toc : Device → Bytes → Bool → Target → Target
unfolding toc_format
read_toc floppy cdb dma t = send_command_end_response true 5 (device_code floppy) 0x20 0 t
read_toc cdrom cdb dma t =
    if toc_format cdb == 1
    then send_data_to_host (device_code cdrom) true toc_session dma t
    else if toc_format cdb == 0
    then send_data_to_host (device_code cdrom) true
        (if at cdb 1 / 2 % 2 == 1 then toc_msf else toc_lba) dma t
    else t

-- One `if` of the cascade: it overwrites what an earlier one has chosen.
unfoldable pub choose : Bool → ℕ → ℕ → Bytes → Option Bytes → Option Bytes
choose sendall firstcode code descriptor chosen =
    if firstcode == code || sendall && ltb firstcode code then some descriptor else chosen

unfoldable pub config_descriptor : Bool → ℕ → Option Bytes
unfolding choose
config_descriptor sendall firstcode = choose sendall firstcode 0x105 cd_config_timeout (
    choose sendall firstcode 0x100 cd_config_power (
      choose sendall firstcode 0x1e cd_config_read (
        choose sendall firstcode 0x10 cd_config_random (
          choose sendall firstcode 3 cd_config_removable (
            choose sendall firstcode 2 cd_config_morphing (
              choose sendall firstcode 1 cd_config_core
                (if firstcode == 0 then some cd_config_profile_list else none)))))))

unfoldable pub config_body : Option Bytes → Bytes
config_body none = be32 8 ++ be32 4
config_body (some r) = be32 8 ++ (be32 (length r + 4) ++ r)

-- `_scsi_get_configuration`
unfoldable pub get_configuration : Device → Bytes → Bool → Target → Target
unfolding config_descriptor config_body
get_configuration device cdb dma t =
    let buflen = get_be16 cdb 7 in
    if buflen == 0
    then send_data_to_host (device_code device) true (be32 0x3c ++ be32 8) dma t
    else let body = config_body (config_descriptor (not (at cdb 1 == 2)) (get_be16 cdb 2)) in
      send_data_to_host (device_code device) true
        (if ltb buflen (length body) then take buflen body else body) dma t

-- `_scsi_get_event_status`
unfoldable pub get_event_status : Device → Option ℕ → Bytes → Bool → Target → Target
get_event_status device slot cdb dma t =
    if not (at cdb 1 == 1) && not (at cdb 4 == 0x10)
    then send_command_end_response true 5 (device_code device) 0x26 1 t
    else send_data_to_host (device_code device) true
        (0 ∷ elim slot [ none ↦ 0 | some _ ↦ 2 ] ∷ 0x80 ∷ 0 ∷ []) dma t

-- The page that the `if` ladder of `_scsi_mode_sense_10` chooses.
unfoldable pub mode_page : Device → ℕ → ℕ → Option Bytes
mode_page floppy sectors page =
    if page == 1
    then some (if leb sectors 0xb40 then ms_floppy_error_recovery else ms_ls120_error_recovery)
    else if page == 5
    then some (if leb sectors 0xb40 then ms_floppy_disk_page else ms_ls120_disk_page)
    else if page == 0x3f
    then some (if leb sectors 0xb40 then ms_3f_floppy else ms_3f_ls120)
    else none
mode_page cdrom sectors page =
    if page == 1
    then some ms_cd_error_recovery
    else if page == 5
    then none
    else if page == 0x3f
    then some ms_3f_cd
    else if page == 0x1a
    then some ms_cd_1a
    else if page == 0x1d
    then some ms_cd_1d
    else if page == 0x2a
    then some ms_cd_2a
    else none

abbrev pub image_blocks : Option MediaImage → ℕ
image_blocks none = 0
image_blocks (some image) = image.blocks

abbrev pub image_writable : Option MediaImage → Bool
image_writable none = false
image_writable (some image) = image.writable

unfoldable pub mode_page_reply : Device → Option Bytes → Bool → Bool → Target → Target
mode_page_reply device none writable dma t =
    send_command_end_response false 5 (device_code device) 0x20 0 t
mode_page_reply device (some r) writable dma t =
    send_data_to_host (device_code device) true (mode_sense_10_page r writable) dma t

-- `_scsi_mode_sense_10`; `cdb[2] & 0x3F` is the low six bits
unfoldable pub mode_sense_10 : Device → Option MediaImage → Bytes → Bool → Target → Target
unfolding mode_page_reply
mode_sense_10 device image cdb dma t =
    if get_be16 cdb 7 == 0
    then send_data_to_host (device_code device) true (be32 0x3c ++ be32 8) dma t
    else mode_page_reply device (mode_page device (image_blocks image) (at cdb 2 % 64))
        (image_writable image) dma t
