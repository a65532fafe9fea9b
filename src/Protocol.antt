-- ===== src/Protocol.antt =====
-- The packets of teensy/usb_rawhid/kowhai/kowhai_protocol.h: commands, structures and the groups
-- of commands that the switches of kowhai_protocol.c share.
use beaverbot.Prelude.{
  ℕ, zero, suc, ◌+◌, Bool, true, false, ◌||◌, ◌==◌, if◌then◌else◌, List, [], ◌∷◌, ◌++◌, take, drop,
}
use beaverbot.Kowhai.{Symbol}
use beaverbot.Kowhai.Access.{from_bytes, to_bytes}
pub mod Parse
pub mod Create
pub mod Sound
pub mod Written
pub mod RoundTrip
pub mod Overhead
pub mod Checked
pub mod Room
pub mod Longer
pub mod Short
pub mod Tests

pub record Header : Type 0 where
  pub command : ℕ
  pub id : ℕ

pub record IdList : Type 0 where
  pub list_count : ℕ
  pub offset : ℕ
  pub size : ℕ

pub record Memory : Type 0 where
  pub type : ℕ
  pub offset : ℕ
  pub size : ℕ

-- `symbols` is what `array_` points at.
pub record DataSpec : Type 0 where
  pub count : ℕ
  pub symbols : List Symbol
  pub memory : Memory

pub record DescriptorSpec : Type 0 where
  pub node_count : ℕ
  pub offset : ℕ
  pub size : ℕ

pub record FunctionDetails : Type 0 where
  pub tree_in_id : ℕ
  pub tree_out_id : ℕ

pub record FunctionCall : Type 0 where
  pub offset : ℕ
  pub size : ℕ

pub record Event : Type 0 where
  pub offset : ℕ
  pub size : ℕ

pub record StringList : Type 0 where
  pub list_count : ℕ
  pub list_total_size : ℕ
  pub offset : ℕ
  pub size : ℕ

-- `union kowhai_protocol_payload_spec_t`, by the member that was stored; `cleared` is all zeros.
pub data Spec : Type 0 where
  cleared : Spec
  version : ℕ → Spec
  id_list : IdList → Spec
  data_spec : DataSpec → Spec
  descriptor : DescriptorSpec → Spec
  function_details : FunctionDetails → Spec
  function_call : FunctionCall → Spec
  event : Event → Spec
  string_list : StringList → Spec

-- The buffer is what the pointer points at, up to the end of the memory there; null is empty.
pub record Payload : Type 0 where
  pub spec : Spec
  pub buffer : List ℕ

pub record Protocol : Type 0 where
  pub header : Header
  pub payload : Payload

abbrev pub cmd_get_version : ℕ
cmd_get_version = 0x00

abbrev pub cmd_get_version_ack : ℕ
cmd_get_version_ack = 0x0F

abbrev pub cmd_get_tree_list : ℕ
cmd_get_tree_list = 0x10

abbrev pub cmd_get_tree_list_ack : ℕ
cmd_get_tree_list_ack = 0x1F

abbrev pub cmd_get_tree_list_ack_end : ℕ
cmd_get_tree_list_ack_end = 0x1E

abbrev pub cmd_write_data : ℕ
cmd_write_data = 0x20

abbrev pub cmd_write_data_end : ℕ
cmd_write_data_end = 0x21

abbrev pub cmd_write_data_ack : ℕ
cmd_write_data_ack = 0x2F

abbrev pub cmd_read_data : ℕ
cmd_read_data = 0x30

abbrev pub cmd_read_data_ack : ℕ
cmd_read_data_ack = 0x3F

abbrev pub cmd_read_data_ack_end : ℕ
cmd_read_data_ack_end = 0x3E

abbrev pub cmd_read_descriptor : ℕ
cmd_read_descriptor = 0x40

abbrev pub cmd_read_descriptor_ack : ℕ
cmd_read_descriptor_ack = 0x4F

abbrev pub cmd_read_descriptor_ack_end : ℕ
cmd_read_descriptor_ack_end = 0x4E

abbrev pub cmd_get_function_list : ℕ
cmd_get_function_list = 0x50

abbrev pub cmd_get_function_list_ack : ℕ
cmd_get_function_list_ack = 0x5F

abbrev pub cmd_get_function_list_ack_end : ℕ
cmd_get_function_list_ack_end = 0x5E

abbrev pub cmd_get_function_details : ℕ
cmd_get_function_details = 0x60

abbrev pub cmd_get_function_details_ack : ℕ
cmd_get_function_details_ack = 0x6F

abbrev pub cmd_call_function : ℕ
cmd_call_function = 0x70

abbrev pub cmd_call_function_ack : ℕ
cmd_call_function_ack = 0x7F

abbrev pub cmd_call_function_result : ℕ
cmd_call_function_result = 0x7E

abbrev pub cmd_call_function_result_end : ℕ
cmd_call_function_result_end = 0x7D

abbrev pub cmd_call_function_failed : ℕ
cmd_call_function_failed = 0x7C

abbrev pub cmd_event : ℕ
cmd_event = 0x80

abbrev pub cmd_event_end : ℕ
cmd_event_end = 0x8F

abbrev pub cmd_get_symbol_list : ℕ
cmd_get_symbol_list = 0x90

abbrev pub cmd_get_symbol_list_ack : ℕ
cmd_get_symbol_list_ack = 0x9F

abbrev pub cmd_get_symbol_list_ack_end : ℕ
cmd_get_symbol_list_ack_end = 0x9E

abbrev pub cmd_error_invalid_command : ℕ
cmd_error_invalid_command = 0xF0

abbrev pub cmd_error_invalid_tree_id : ℕ
cmd_error_invalid_tree_id = 0xF1

abbrev pub cmd_error_invalid_function_id : ℕ
cmd_error_invalid_function_id = 0xF2

abbrev pub cmd_error_invalid_symbol_path : ℕ
cmd_error_invalid_symbol_path = 0xF3

abbrev pub cmd_error_invalid_payload_offset : ℕ
cmd_error_invalid_payload_offset = 0xF4

abbrev pub cmd_error_invalid_payload_size : ℕ
cmd_error_invalid_payload_size = 0xF5

abbrev pub cmd_error_invalid_sequence : ℕ
cmd_error_invalid_sequence = 0xF6

abbrev pub cmd_error_no_data : ℕ
cmd_error_no_data = 0xF7

abbrev pub cmd_error_unknown : ℕ
cmd_error_unknown = 0xFF

-- The groups of commands whose payloads have one layout.
pub data Layout : Type 0 where
  no_payload version_payload id_list_payload read_payload data_payload : Layout
  descriptor_payload details_payload call_payload event_payload string_list_payload : Layout
  unknown : Layout

abbrev pub one_of : ℕ → List ℕ → Bool
one_of c [] = false
one_of c (x ∷ xs) = c == x || one_of c xs

-- The cases that the switches of `kowhai_protocol_parse` and `kowhai_protocol_create` share.
unfoldable pub layout_of : ℕ → Layout
layout_of c =
    if one_of c (
      cmd_get_version ∷ cmd_get_tree_list ∷ cmd_read_descriptor ∷ cmd_get_function_list
      ∷ cmd_get_function_details ∷ cmd_call_function_failed ∷ cmd_get_symbol_list ∷ [])
    then no_payload
    else if c == cmd_get_version_ack
    then version_payload
    else if one_of c (
        cmd_get_tree_list_ack ∷ cmd_get_tree_list_ack_end ∷ cmd_get_function_list_ack
        ∷ cmd_get_function_list_ack_end ∷ [])
    then id_list_payload
    else if c == cmd_read_data
    then read_payload
    else if one_of c (
        cmd_write_data ∷ cmd_write_data_end ∷ cmd_write_data_ack ∷ cmd_read_data_ack
        ∷ cmd_read_data_ack_end ∷ [])
    then data_payload
    else if one_of c (cmd_read_descriptor_ack ∷ cmd_read_descriptor_ack_end ∷ [])
    then descriptor_payload
    else if c == cmd_get_function_details_ack
    then details_payload
    else if one_of c (
        cmd_call_function ∷ cmd_call_function_ack ∷ cmd_call_function_result
        ∷ cmd_call_function_result_end ∷ [])
    then call_payload
    else if one_of c (cmd_event ∷ cmd_event_end ∷ [])
    then event_payload
    else if one_of c (cmd_get_symbol_list_ack ∷ cmd_get_symbol_list_ack_end ∷ [])
    then string_list_payload
    else unknown

-- A packed field of `w` bytes, from byte `at` on.
abbrev pub field : (at w : ℕ) → List ℕ → ℕ
field at w bytes = from_bytes (take w (drop at bytes))
