-- ===== src/Ider/Moves/Replies.antt =====
-- The commands that transfer no sectors are sequences of mutations.
use ansible_collection_intel.Prelude.{ℕ, Bool, Option, none, some, Bytes, not, ◌%◌, at}
use ansible_collection_intel.Ider.Media.{MediaImage, Device, floppy, cdrom}
use ansible_collection_intel.Ider.Target.{Target}
use ansible_collection_intel.Ider.Send.{send_command_end_response, send_data_to_host}
use ansible_collection_intel.Ider.Replies.{
  test_unit_ready, mode_sense_6, read_format_capacities, read_toc, get_configuration,
  get_event_status, mode_sense_10, mode_page, mode_page_reply, image_blocks, image_writable,
}
use ansible_collection_intel.Ider.Moves.{
  send, report_change, Moves, here, next, Moves-one, Moves-if,
}

module _ {reads : Bool} (t : Target) where
  pub Moves-end_response :
      (error : Bool) (sense device asc asq : ℕ)
      → Moves reads t (send_command_end_response error sense device asc asq t)
  unfolding send_command_end_response
  Moves-end_response error sense device asc asq = Moves-one (send _ _ _ _)

  pub Moves-data_to_host :
      (device : ℕ) (completed : Bool) (bytes : Bytes) (dma : Bool)
      → Moves reads t (send_data_to_host device completed bytes dma t)
  unfolding send_data_to_host
  Moves-data_to_host device completed bytes dma = Moves-one (send _ _ _ _)

ruleset reply_moves = (Moves-if, Moves-end_response, Moves-data_to_host)

pub Moves-test_unit_ready :
    {reads : Bool} (device : Device) (slot : Option ℕ) (t : Target)
    → Moves reads t (test_unit_ready device slot t)
unfolding test_unit_ready send_command_end_response
Moves-test_unit_ready device none t = Moves-end_response t _ _ _ _ _
Moves-test_unit_ready device (some r) t =
    Moves-if (not (t.images r).media_change_reported)
      (next (Moves-one (report_change r)) (send _ _ _ _)) (Moves-end_response t _ _ _ _ _)

pub Moves-mode_sense_6 :
    {reads : Bool} (device : Device) (image : Option MediaImage) (cdb : Bytes) (dma : Bool)
    (t : Target)
    → Moves reads t (mode_sense_6 device image cdb dma t)
unfolding mode_sense_6
Moves-mode_sense_6 device none cdb dma t = search reply_moves
Moves-mode_sense_6 device (some image) cdb dma t = search reply_moves

pub Moves-read_format_capacities :
    {reads : Bool} (device : Device) (image : Option MediaImage) (dma : Bool) (t : Target)
    → Moves reads t (read_format_capacities device image dma t)
unfolding read_format_capacities
Moves-read_format_capacities device none dma t = search reply_moves
Moves-read_format_capacities device (some image) dma t = search reply_moves

pub Moves-read_toc :
    {reads : Bool} (device : Device) (cdb : Bytes) (dma : Bool) (t : Target)
    → Moves reads t (read_toc device cdb dma t)
unfolding read_toc
Moves-read_toc floppy cdb dma t = search reply_moves
Moves-read_toc cdrom cdb dma t = search (reply_moves, here)

pub Moves-get_configuration :
    {reads : Bool} (device : Device) (cdb : Bytes) (dma : Bool) (t : Target)
    → Moves reads t (get_configuration device cdb dma t)
unfolding get_configuration
Moves-get_configuration device cdb dma t =
    Moves-if _ (Moves-data_to_host t _ _ _ _) (Moves-data_to_host t _ _ _ _)

pub Moves-get_event_status :
    {reads : Bool} (device : Device) (slot : Option ℕ) (cdb : Bytes) (dma : Bool) (t : Target)
    → Moves reads t (get_event_status device slot cdb dma t)
unfolding get_event_status
Moves-get_event_status device slot cdb dma t = search reply_moves

pub Moves-mode_sense_10 :
    {reads : Bool} (device : Device) (image : Option MediaImage) (cdb : Bytes) (dma : Bool)
    (t : Target)
    → Moves reads t (mode_sense_10 device image cdb dma t)
unfolding mode_sense_10
Moves-mode_sense_10 {reads} device image cdb dma t =
    Moves-if _ (Moves-data_to_host t _ _ _ _)
      (page (mode_page device (image_blocks image) (at cdb 2 % 64)))
  where
    page :
        (p : Option Bytes) → Moves reads t (mode_page_reply device p (image_writable image) dma t)
    page none = Moves-end_response t _ _ _ _ _
    page (some r) = Moves-data_to_host t _ _ _ _
