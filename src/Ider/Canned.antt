-- ===== src/Ider/Canned.antt =====
-- ider.py, the canned SCSI replies, byte for byte, and the private copy of a mode page.
use ansible_collection_intel.Prelude.{Bool, Bytes, [], ◌∷◌, at, set, bit_and, bit_or, if◌then◌else◌}

abbrev pub ms_ls120_disk_page : Bytes
ms_ls120_disk_page =
    0x00 ∷ 0x26 ∷ 0x31 ∷ 0x80 ∷ 0x00 ∷ 0x00 ∷ 0x00 ∷ 0x00 ∷ 0x05 ∷ 0x1e ∷ 0x10 ∷ 0xa9 ∷ 0x08 ∷ 0x20
    ∷ 0x02 ∷ 0x00 ∷ 0x03 ∷ 0xc3 ∷ 0x00 ∷ 0x00 ∷ 0x00 ∷ 0x00 ∷ 0x00 ∷ 0x00 ∷ 0x00 ∷ 0x00 ∷ 0x00
    ∷ 0x00 ∷ 0x28 ∷ 0x00 ∷ 0x00 ∷ 0x00 ∷ 0x00 ∷ 0x00 ∷ 0x00 ∷ 0x00 ∷ 0x02 ∷ 0xd0 ∷ 0x00 ∷ 0x00 ∷ []

abbrev pub ms_3f_ls120 : Bytes
ms_3f_ls120 =
    0x00 ∷ 0x5c ∷ 0x24 ∷ 0x80 ∷ 0x00 ∷ 0x00 ∷ 0x00 ∷ 0x00 ∷ 0x01 ∷ 0x0a ∷ 0x00 ∷ 0x01 ∷ 0x00 ∷ 0x00
    ∷ 0x00 ∷ 0x00 ∷ 0x02 ∷ 0x00 ∷ 0x00 ∷ 0x00 ∷ 0x03 ∷ 0x16 ∷ 0x00 ∷ 0xa0 ∷ 0x00 ∷ 0x00 ∷ 0x00
    ∷ 0x00 ∷ 0x00 ∷ 0x12 ∷ 0x02 ∷ 0x00 ∷ 0x00 ∷ 0x00 ∷ 0x00 ∷ 0x00 ∷ 0x00 ∷ 0x00 ∷ 0xa0 ∷ 0x00
    ∷ 0x00 ∷ 0x00 ∷ 0x05 ∷ 0x1e ∷ 0x10 ∷ 0xa9 ∷ 0x08 ∷ 0x20 ∷ 0x02 ∷ 0x00 ∷ 0x03 ∷ 0xc3 ∷ 0x00
    ∷ 0x00 ∷ 0x00 ∷ 0x00 ∷ 0x00 ∷ 0x00 ∷ 0x00 ∷ 0x00 ∷ 0x00 ∷ 0x00 ∷ 0x28 ∷ 0x00 ∷ 0x00 ∷ 0x00
    ∷ 0x00 ∷ 0x00 ∷ 0x00 ∷ 0x00 ∷ 0x02 ∷ 0xd0 ∷ 0x00 ∷ 0x00 ∷ 0x08 ∷ 0x0a ∷ 0x00 ∷ 0x00 ∷ 0x00
    ∷ 0x00 ∷ 0x00 ∷ 0x00 ∷ 0x00 ∷ 0x00 ∷ 0x00 ∷ 0x00 ∷ 0x0b ∷ 0x06 ∷ 0x00 ∷ 0x00 ∷ 0x00 ∷ 0x11
    ∷ 0x24 ∷ 0x31 ∷ []

abbrev pub ms_floppy_disk_page : Bytes
ms_floppy_disk_page =
    0x00 ∷ 0x26 ∷ 0x24 ∷ 0x80 ∷ 0x00 ∷ 0x00 ∷ 0x00 ∷ 0x00 ∷ 0x05 ∷ 0x1e ∷ 0x04 ∷ 0xb0 ∷ 0x02 ∷ 0x12
    ∷ 0x02 ∷ 0x00 ∷ 0x00 ∷ 0x50 ∷ 0x00 ∷ 0x00 ∷ 0x00 ∷ 0x00 ∷ 0x00 ∷ 0x00 ∷ 0x00 ∷ 0x00 ∷ 0x00
    ∷ 0x00 ∷ 0x28 ∷ 0x00 ∷ 0x00 ∷ 0x00 ∷ 0x00 ∷ 0x00 ∷ 0x00 ∷ 0x00 ∷ 0x02 ∷ 0xd0 ∷ 0x00 ∷ 0x00 ∷ []

abbrev pub ms_3f_floppy : Bytes
ms_3f_floppy =
    0x00 ∷ 0x5c ∷ 0x24 ∷ 0x80 ∷ 0x00 ∷ 0x00 ∷ 0x00 ∷ 0x00 ∷ 0x01 ∷ 0x0a ∷ 0x00 ∷ 0x01 ∷ 0x00 ∷ 0x00
    ∷ 0x00 ∷ 0x00 ∷ 0x02 ∷ 0x00 ∷ 0x00 ∷ 0x00 ∷ 0x03 ∷ 0x16 ∷ 0x00 ∷ 0xa0 ∷ 0x00 ∷ 0x00 ∷ 0x00
    ∷ 0x00 ∷ 0x00 ∷ 0x12 ∷ 0x02 ∷ 0x00 ∷ 0x00 ∷ 0x00 ∷ 0x00 ∷ 0x00 ∷ 0x00 ∷ 0x00 ∷ 0xa0 ∷ 0x00
    ∷ 0x00 ∷ 0x00 ∷ 0x05 ∷ 0x1e ∷ 0x04 ∷ 0xb0 ∷ 0x02 ∷ 0x12 ∷ 0x02 ∷ 0x00 ∷ 0x00 ∷ 0x50 ∷ 0x00
    ∷ 0x00 ∷ 0x00 ∷ 0x00 ∷ 0x00 ∷ 0x00 ∷ 0x00 ∷ 0x00 ∷ 0x00 ∷ 0x00 ∷ 0x28 ∷ 0x00 ∷ 0x00 ∷ 0x00
    ∷ 0x00 ∷ 0x00 ∷ 0x00 ∷ 0x00 ∷ 0x02 ∷ 0xd0 ∷ 0x00 ∷ 0x00 ∷ 0x08 ∷ 0x0a ∷ 0x00 ∷ 0x00 ∷ 0x00
    ∷ 0x00 ∷ 0x00 ∷ 0x00 ∷ 0x00 ∷ 0x00 ∷ 0x00 ∷ 0x00 ∷ 0x0b ∷ 0x06 ∷ 0x00 ∷ 0x00 ∷ 0x00 ∷ 0x11
    ∷ 0x24 ∷ 0x31 ∷ []

abbrev pub ms_cd_1a : Bytes
ms_cd_1a =
    0x00 ∷ 0x12 ∷ 0x01 ∷ 0x80 ∷ 0x00 ∷ 0x00 ∷ 0x00 ∷ 0x00 ∷ 0x1a ∷ 0x0a ∷ 0x00 ∷ 0x00 ∷ 0x00 ∷ 0x00
    ∷ 0x00 ∷ 0x00 ∷ 0x00 ∷ 0x00 ∷ 0x00 ∷ 0x00 ∷ []

abbrev pub ms_cd_1d : Bytes
ms_cd_1d =
    0x00 ∷ 0x12 ∷ 0x01 ∷ 0x80 ∷ 0x00 ∷ 0x00 ∷ 0x00 ∷ 0x00 ∷ 0x1d ∷ 0x0a ∷ 0x00 ∷ 0x00 ∷ 0x00 ∷ 0x00
    ∷ 0x00 ∷ 0x00 ∷ 0x00 ∷ 0x00 ∷ 0x00 ∷ 0x00 ∷ []

abbrev pub ms_cd_2a : Bytes
ms_cd_2a =
    0x00 ∷ 0x20 ∷ 0x01 ∷ 0x80 ∷ 0x00 ∷ 0x00 ∷ 0x00 ∷ 0x00 ∷ 0x2a ∷ 0x18 ∷ 0x00 ∷ 0x00 ∷ 0x00 ∷ 0x00
    ∷ 0x20 ∷ 0x00 ∷ 0x00 ∷ 0x00 ∷ 0x00 ∷ 0x00 ∷ 0x00 ∷ 0x80 ∷ 0x00 ∷ 0x00 ∷ 0x00 ∷ 0x00 ∷ 0x00
    ∷ 0x00 ∷ 0x00 ∷ 0x00 ∷ 0x00 ∷ 0x00 ∷ 0x00 ∷ 0x00 ∷ []

abbrev pub ms_3f_cd : Bytes
ms_3f_cd =
    0x00 ∷ 0x28 ∷ 0x01 ∷ 0x80 ∷ 0x00 ∷ 0x00 ∷ 0x00 ∷ 0x00 ∷ 0x01 ∷ 0x06 ∷ 0x00 ∷ 0xff ∷ 0x00 ∷ 0x00
    ∷ 0x00 ∷ 0x00 ∷ 0x2a ∷ 0x18 ∷ 0x00 ∷ 0x00 ∷ 0x00 ∷ 0x00 ∷ 0x02 ∷ 0x00 ∷ 0x00 ∷ 0x00 ∷ 0x00
    ∷ 0x00 ∷ 0x00 ∷ 0x80 ∷ 0x00 ∷ 0x00 ∷ 0x00 ∷ 0x00 ∷ 0x00 ∷ 0x00 ∷ 0x00 ∷ 0x00 ∷ 0x00 ∷ 0x00
    ∷ 0x00 ∷ 0x00 ∷ []

abbrev pub ms_floppy_error_recovery : Bytes
ms_floppy_error_recovery =
    0x00 ∷ 0x12 ∷ 0x24 ∷ 0x80 ∷ 0x00 ∷ 0x00 ∷ 0x00 ∷ 0x00 ∷ 0x01 ∷ 0x0a ∷ 0x00 ∷ 0x01 ∷ 0x00 ∷ 0x00
    ∷ 0x00 ∷ 0x00 ∷ 0x02 ∷ 0x00 ∷ 0x00 ∷ 0x00 ∷ []

abbrev pub ms_ls120_error_recovery : Bytes
ms_ls120_error_recovery =
    0x00 ∷ 0x12 ∷ 0x31 ∷ 0x80 ∷ 0x00 ∷ 0x00 ∷ 0x00 ∷ 0x00 ∷ 0x01 ∷ 0x0a ∷ 0x00 ∷ 0x01 ∷ 0x00 ∷ 0x00
    ∷ 0x00 ∷ 0x00 ∷ 0x02 ∷ 0x00 ∷ 0x00 ∷ 0x00 ∷ []

abbrev pub ms_cd_error_recovery : Bytes
ms_cd_error_recovery =
    0x00 ∷ 0x0e ∷ 0x01 ∷ 0x80 ∷ 0x00 ∷ 0x00 ∷ 0x00 ∷ 0x00 ∷ 0x01 ∷ 0x06 ∷ 0x00 ∷ 0xff ∷ 0x00 ∷ 0x00
    ∷ 0x00 ∷ 0x00 ∷ []

abbrev pub cd_config_profile_list : Bytes
cd_config_profile_list = 0x00 ∷ 0x00 ∷ 0x03 ∷ 0x04 ∷ 0x00 ∷ 0x08 ∷ 0x01 ∷ 0x00 ∷ []

abbrev pub cd_config_core : Bytes
cd_config_core = 0x00 ∷ 0x01 ∷ 0x03 ∷ 0x04 ∷ 0x00 ∷ 0x00 ∷ 0x00 ∷ 0x02 ∷ []

abbrev pub cd_config_morphing : Bytes
cd_config_morphing = 0x00 ∷ 0x02 ∷ 0x03 ∷ 0x04 ∷ 0x00 ∷ 0x00 ∷ 0x00 ∷ 0x00 ∷ []

abbrev pub cd_config_removable : Bytes
cd_config_removable = 0x00 ∷ 0x03 ∷ 0x03 ∷ 0x04 ∷ 0x29 ∷ 0x00 ∷ 0x00 ∷ 0x02 ∷ []

abbrev pub cd_config_random : Bytes
cd_config_random =
    0x00 ∷ 0x10 ∷ 0x01 ∷ 0x08 ∷ 0x00 ∷ 0x00 ∷ 0x08 ∷ 0x00 ∷ 0x00 ∷ 0x01 ∷ 0x00 ∷ 0x00 ∷ []

abbrev pub cd_config_read : Bytes
cd_config_read = 0x00 ∷ 0x1e ∷ 0x03 ∷ 0x00 ∷ []

abbrev pub cd_config_power : Bytes
cd_config_power = 0x01 ∷ 0x00 ∷ 0x03 ∷ 0x00 ∷ []

abbrev pub cd_config_timeout : Bytes
cd_config_timeout = 0x01 ∷ 0x05 ∷ 0x03 ∷ 0x00 ∷ []

abbrev pub get_performance_reply : Bytes
get_performance_reply = 0x00 ∷ 0x00 ∷ 0x00 ∷ 0x04 ∷ 0x02 ∷ 0x00 ∷ 0x00 ∷ 0x00 ∷ []

-- `_mode_sense_10_page`: the write-protect bit of byte 3 is cleared or set
unfoldable pub mode_sense_10_page : Bytes → Bool → Bytes
mode_sense_10_page page writable =
    set page 3 (if writable then bit_and (at page 3) 0x7f else bit_or (at page 3) 0x80)
