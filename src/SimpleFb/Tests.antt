-- ===== src/SimpleFb/Tests.antt =====
-- The driver on a tree with one frame buffer of 4 by 3 pixels, and instances of its theorems.
use edk2_uemu.Common.{
  ℕ, ◌+◌, ◌-◌, ◌*◌, ◌/◌, ◌%◌, ◌^◌, ◌<◌, ◌≡◌, ◌≢◌, refl, true, Option, none, some, [], ◌∷◌, ◌==◌,
  if◌then◌else◌, arith, length, replicate,
}
use edk2_uemu.Common.Int.{pos}
use edk2_uemu.Efi.{ok, fault, success, buffer_too_small}
use edk2_uemu.Text.{Text, codes, ascii_str_eq, ascii_strn_len_s}
use edk2_uemu.Fdt.{
  Platform, Property, is_malformed, node_is_enabled, read_cell, decode_loop, decode_cells,
  find_loop, uemu_fdt_get, uemu_fdt_find_compatible_node, reg_tuple, uemu_fdt_get_reg,
  uemu_fdt_get_u32, uemu_fdt_get_string, uemu_fdt_align_range,
}
use edk2_uemu.Fdt.Cells.{IsBytes}
use edk2_uemu.Fdt.Reg.{HasLengths}
use edk2_uemu.SimpleFb.{
  FrameBuffer, Services, check_frame_buffer, read_frame_buffer, get_simple_frame_buffer, mode_of,
  display_query_mode, display_blt, set_frame_buffer_memory_attributes, configure_blt, start_display,
  simple_fb_dxe_initialize,
}
use edk2_uemu.SimpleFb.Fits.{IsUsable, mode_pixel_inside, initialize_stays_inside}
use edk2_uemu.SimpleFb.Safe.{get_frame_buffer_safe}

-- Base 0x80000000, size 0x1000.
abbrev screen_reg : Property
screen_reg = record {
  bytes = 0 ∷ 0 ∷ 0 ∷ 0 ∷ 128 ∷ 0 ∷ 0 ∷ 0 ∷ 0 ∷ 0 ∷ 0 ∷ 0 ∷ 0 ∷ 0 ∷ 16 ∷ 0 ∷ [];
  len = pos 16;
}

abbrev cell : ℕ → Property
cell n = record { bytes = 0 ∷ 0 ∷ 0 ∷ n ∷ []; len = pos 4 }

-- "x8r8g8b8" and its NUL.
abbrev format : Property
format = record { bytes = 120 ∷ 56 ∷ 114 ∷ 56 ∷ 103 ∷ 56 ∷ 98 ∷ 56 ∷ 0 ∷ []; len = pos 9 }

-- The properties of every node: a frame buffer of 4 by 3 pixels in rows of 16 bytes.
screen_prop : Text → Option Property
unfolding ascii_str_eq
screen_prop name =
    if ascii_str_eq name (codes "reg")
    then some screen_reg
    else if ascii_str_eq name (codes "width")
    then some (cell 4)
    else if ascii_str_eq name (codes "height")
    then some (cell 3)
    else if ascii_str_eq name (codes "stride")
    then some (cell 16)
    else if ascii_str_eq name (codes "format")
    then some format
    else none

abbrev screen : Platform
screen = record {
  first_fdt_hob = some (record { size = 8; value = 4096 });
  check_header = λ fdt. pos 0;
  node_offset_by_compatible = λ fdt node compatible. pos 8;
  get_prop = λ fdt node name. screen_prop name;
  parent_offset = λ fdt node. pos 0;
  address_cells = λ fdt node. pos 2;
  size_cells = λ fdt node. pos 2;
  fdt32_to_cpu = λ w.
      w % 2 ^ 8 * 2 ^ 24 + w / 2 ^ 8 % 2 ^ 8 * 2 ^ 16 + w / 2 ^ 16 % 2 ^ 8 * 2 ^ 8 + w / 2 ^ 24;
  align_value = λ value alignment. (value + (alignment - 1)) / alignment * alignment;
}

screen_lengths :
    (name : Text) {prop : Property}
    → screen_prop name ≡ some prop
    → (prop.len ≡ pos (length prop.bytes)) × IsBytes prop.bytes
unfolding screen_prop
screen_lengths name h = ground arith

screen-HasLengths : HasLengths screen
screen-HasLengths = record { has_length = λ fdt node name h. screen_lengths name h }

abbrev services : Services
services = record {
  has_pool = λ size. true;
  locate_cpu = success;
  set_memory_attributes = some (λ base size. success);
  blt_configure = λ base info size. if size == 0 then (buffer_too_small, 64) else (success, size);
  graphics_output_guid = replicate 16 3;
  install = λ path mode. success;
}

abbrev screen_buffer : FrameBuffer
screen_buffer = record { base = 0x80000000; size = 0x1000; width = 4; height = 3; stride = 16 }

get_frame_buffer_runs : get_simple_frame_buffer screen 1 ≡ some (ok screen_buffer)
unfolding get_simple_frame_buffer read_frame_buffer check_frame_buffer screen_prop uemu_fdt_get
    uemu_fdt_find_compatible_node find_loop node_is_enabled uemu_fdt_get_reg reg_tuple decode_cells
    decode_loop read_cell uemu_fdt_get_u32 uemu_fdt_get_string is_malformed ascii_strn_len_s
    ascii_str_eq
get_frame_buffer_runs = refl

initialize_runs :
    simple_fb_dxe_initialize screen services 1
    ≡ some (ok (start_display screen services screen_buffer))
unfolding simple_fb_dxe_initialize
initialize_runs = rw (get_frame_buffer_runs, simple_fb_dxe_initialize) refl

attributes_runs : (start_display screen services screen_buffer).attributes ≡ some (ok success)
unfolding start_display set_frame_buffer_memory_attributes uemu_fdt_align_range
attributes_runs = refl

configured_runs : (start_display screen services screen_buffer).configured ≡ some (success, 64)
unfolding start_display configure_blt mode_of
configured_runs = refl

query_mode_runs :
    display_query_mode services (mode_of screen_buffer) 7 ≡ ok (36, (mode_of screen_buffer).info)
unfolding display_query_mode mode_of
query_mode_runs = refl

blt_runs : display_blt buffer_too_small ≢ success
unfolding display_blt
blt_runs = λ e. cc

mode_pixel_inside_example : 2 < 4
unfolding mode_of
mode_pixel_inside_example =
    (mode_pixel_inside screen 1 screen_buffer 2 1 get_frame_buffer_runs (omega arith)
      (omega arith)).0

get_frame_buffer_safe_example : get_simple_frame_buffer screen 1 ≢ some fault
get_frame_buffer_safe_example = get_frame_buffer_safe screen 1 screen-HasLengths

start_display_clears : (start_display screen services screen_buffer).cleared ≡ some (0x80000000, 48)
unfolding start_display mode_of
start_display_clears = refl

initialize_stays_inside_example : IsUsable (
    (initialize_stays_inside screen services 1 0x80000000 48
      (start_display screen services screen_buffer)
      initialize_runs
      start_display_clears).0)
initialize_stays_inside_example =
    (initialize_stays_inside screen services 1 0x80000000 48
      (start_display screen services screen_buffer) initialize_runs start_display_clears).2
