-- ===== src/MessageLog/Tables.antt =====
-- message_log.py: the tables of names, each keyed by the byte of the record.
use ansible_collection_intel.Prelude.{ℕ, String, List, [], ◌∷◌}

abbrev pub event_severity_table : List (ℕ × String)
event_severity_table =
    (0, "unspecified")
    ∷ (1, "monitor")
    ∷ (2, "information")
    ∷ (4, "ok")
    ∷ (8, "non_critical")
    ∷ (16, "critical")
    ∷ (32, "non_recoverable")
    ∷ []

abbrev pub system_entity_table : List (ℕ × String)
system_entity_table =
    (0, "Unspecified")
    ∷ (1, "Other")
    ∷ (2, "Unknown")
    ∷ (3, "Processor")
    ∷ (4, "Disk")
    ∷ (5, "Peripheral")
    ∷ (6, "System management module")
    ∷ (7, "System board")
    ∷ (8, "Memory module")
    ∷ (9, "Processor module")
    ∷ (10, "Power supply")
    ∷ (11, "Add in card")
    ∷ (12, "Front panel board")
    ∷ (13, "Back panel board")
    ∷ (14, "Power system board")
    ∷ (15, "Drive backplane")
    ∷ (16, "System internal expansion board")
    ∷ (17, "Other system board")
    ∷ (18, "Processor board")
    ∷ (19, "Power unit")
    ∷ (20, "Power module")
    ∷ (21, "Power management board")
    ∷ (22, "Chassis back panel board")
    ∷ (23, "System chassis")
    ∷ (24, "Sub chassis")
    ∷ (25, "Other chassis board")
    ∷ (26, "Disk drive bay")
    ∷ (27, "Peripheral bay")
    ∷ (28, "Device bay")
    ∷ (29, "Fan cooling")
    ∷ (30, "Cooling unit")
    ∷ (31, "Cable interconnect")
    ∷ (32, "Memory device")
    ∷ (33, "System management software")
    ∷ (34, "BIOS")
    ∷ (35, "Intel(r) ME")
    ∷ (36, "System bus")
    ∷ (37, "Group")
    ∷ (38, "Intel(r) ME")
    ∷ (39, "External environment")
    ∷ (40, "Battery")
    ∷ (41, "Processing blade")
    ∷ (42, "Connectivity switch")
    ∷ (43, "Processor/memory module")
    ∷ (44, "I/O module")
    ∷ (45, "Processor I/O module")
    ∷ (46, "Management controller firmware")
    ∷ (47, "IPMI channel")
    ∷ (48, "PCI bus")
    ∷ (49, "PCI express bus")
    ∷ (50, "SCSI bus")
    ∷ (51, "SATA/SAS bus")
    ∷ (52, "Processor front side bus")
    ∷ []

abbrev pub system_firmware_error_table : List (ℕ × String)
system_firmware_error_table =
    (0, "Unspecified.")
    ∷ (1, "No system memory is physically installed in the system.")
    ∷ (2, "No usable system memory, all installed memory has experienced an unrecoverable failure.")
    ∷ (3, "Unrecoverable hard-disk/ATAPI/IDE device failure.")
    ∷ (4, "Unrecoverable system-board failure.")
    ∷ (5, "Unrecoverable diskette subsystem failure.")
    ∷ (6, "Unrecoverable hard-disk controller failure.")
    ∷ (7, "Unrecoverable PS/2 or USB keyboard failure.")
    ∷ (8, "Removable boot media not found.")
    ∷ (9, "Unrecoverable video controller failure.")
    ∷ (10, "No video device detected.")
    ∷ (11, "Firmware (BIOS) ROM corruption detected.")
    ∷ (
      12,
      "CPU voltage mismatch (processors that share same supply have mismatched voltage requirements)",
    )
    ∷ (13, "CPU speed matching failure")
    ∷ []

abbrev pub system_firmware_progress_table : List (ℕ × String)
system_firmware_progress_table =
    (0, "Unspecified.")
    ∷ (1, "Memory initialization.")
    ∷ (2, "Starting hard-disk initialization and test")
    ∷ (3, "Secondary processor(s) initialization")
    ∷ (4, "User authentication")
    ∷ (5, "User-initiated system setup")
    ∷ (6, "USB resource configuration")
    ∷ (7, "PCI resource configuration")
    ∷ (8, "Option ROM initialization")
    ∷ (9, "Video initialization")
    ∷ (10, "Cache initialization")
    ∷ (11, "SM Bus initialization")
    ∷ (12, "Keyboard controller initialization")
    ∷ (13, "Embedded controller/management controller initialization")
    ∷ (14, "Docking station attachment")
    ∷ (15, "Enabling docking station")
    ∷ (16, "Docking station ejection")
    ∷ (17, "Disabling docking station")
    ∷ (18, "Calling operating system wake-up vector")
    ∷ (19, "Starting operating system boot process")
    ∷ (20, "Baseboard or motherboard initialization")
    ∷ (21, "reserved")
    ∷ (22, "Floppy initialization")
    ∷ (23, "Keyboard test")
    ∷ (24, "Pointing device test")
    ∷ (25, "Primary processor initialization")
    ∷ []

abbrev pub watchdog_state_table : List (ℕ × String)
watchdog_state_table =
    (1, "Not Started") ∷ (2, "Stopped") ∷ (4, "Running") ∷ (8, "Expired") ∷ (16, "Suspended") ∷ []

abbrev pub fixed_sensor_descriptions : List (ℕ × String)
fixed_sensor_descriptions =
    (30, "No bootable media")
    ∷ (32, "Operating system lockup or power interrupt")
    ∷ (35, "System boot failure")
    ∷ (37, "System firmware started (at least one CPU is properly executing).")
    ∷ []
