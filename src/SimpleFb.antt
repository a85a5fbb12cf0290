-- ===== src/SimpleFb.antt =====
-- UemuPkg/Drivers/SimpleFbDxe/SimpleFbDxe.c: the frame buffer that the device tree describes, and the
-- graphics output protocol over it. The CPU architecture protocol and FrameBufferBltLib are arguments.
pub mod Fits
pub mod Safe
mod Tests
use edk2_uemu.Common.{
  ℕ, ◌+◌, ◌*◌, ◌/◌, ◌%◌, ◌^◌, Bool, true, false, not, ◌||◌, ◌&&◌, Option, none, some, List, ◌++◌,
  ltb, ◌==◌, if◌then◌else◌, u32, u64, max_uint32, max_uint64,
}
use edk2_uemu.Packed.{byte_fields}
use edk2_uemu.DevicePath.{DevicePath, hardware_vendor, end_node}
use edk2_uemu.Common.Int.{ℤ}
use edk2_uemu.Efi.{
  Status, Result, ok, err, fault, success, invalid_parameter, bad_buffer_size, compromised_data,
  buffer_too_small, out_of_resources, is_buffer_too_small, ◌>>=◌, is_error,
}
use edk2_uemu.Text.{Text, codes, ascii_str_eq}
use edk2_uemu.Fdt.{
  Platform, uemu_fdt_get, uemu_fdt_find_compatible_node, uemu_fdt_get_reg, uemu_fdt_get_u32,
  uemu_fdt_get_string, uemu_fdt_align_range,
}

-- FB_BYTES_PER_PIXEL
abbrev pub fb_bytes_per_pixel : ℕ
fb_bytes_per_pixel = 4

-- What GetSimpleFrameBuffer stores.
pub record FrameBuffer : Type 0 where
  pub base : ℕ
  pub size : ℕ
  pub width : ℕ
  pub height : ℕ
  pub stride : ℕ

-- The tests of GetSimpleFrameBuffer, in their order; `fault` is a division by a stride of 0.
pub check_frame_buffer : FrameBuffer → Text → Result FrameBuffer
check_frame_buffer fb format =
    let required = u64 (fb.stride * fb.height) in
    if fb.width == 0
      || fb.height == 0
      || not (fb.stride % fb_bytes_per_pixel == 0)
      || ltb (max_uint32 / fb_bytes_per_pixel) fb.width
      || ltb fb.stride (u32 (fb.width * fb_bytes_per_pixel))
    then err compromised_data
    else if fb.stride == 0
    then fault
    else if ltb (max_uint64 / fb.stride) fb.height || not (ascii_str_eq format (codes "x8r8g8b8"))
    then err compromised_data
    else if ltb fb.size required || ltb max_uint64 required || ltb max_uint64 fb.base
    then err bad_buffer_size
    else ok fb

-- GetSimpleFrameBuffer behind the search for the node.
pub read_frame_buffer : Platform → ℕ → ℤ → Result FrameBuffer
read_frame_buffer p fdt node = do
  reg ← uemu_fdt_get_reg p fdt node 0 1 1
  width ← uemu_fdt_get_u32 p fdt node (some (codes "width")) 1
  height ← uemu_fdt_get_u32 p fdt node (some (codes "height")) 1
  stride ← uemu_fdt_get_u32 p fdt node (some (codes "stride")) 1
  format ← uemu_fdt_get_string p fdt node (some (codes "format")) 1
  check_frame_buffer
      (record { base = reg.0; size = reg.1; width = width; height = height; stride = stride })
      format.0

-- GetSimpleFrameBuffer; `none` is fuel of the search that ran out.
pub get_simple_frame_buffer : Platform → ℕ → Option (Result FrameBuffer)
get_simple_frame_buffer p fuel = elim (uemu_fdt_get p 1) [
  | ok fdt ↦ elim (uemu_fdt_find_compatible_node p fuel fdt (some (codes "simple-framebuffer")) 1) [
    | none ↦ none
    | some found ↦ some (found >>= λ node. read_frame_buffer p fdt node)
  ]
  | err s ↦ some (err s)
  | fault ↦ some fault
]

-- EFI_GRAPHICS_OUTPUT_MODE_INFORMATION
pub record ModeInformation : Type 0 where
  pub version : ℕ
  pub horizontal_resolution : ℕ
  pub vertical_resolution : ℕ
  pub pixel_format : ℕ
  pub pixels_per_scan_line : ℕ

-- EFI_GRAPHICS_OUTPUT_PROTOCOL_MODE
pub record Mode : Type 0 where
  pub max_mode : ℕ
  pub mode : ℕ
  pub info : ModeInformation
  pub size_of_info : ℕ
  pub frame_buffer_base : ℕ
  pub frame_buffer_size : ℕ

-- sizeof (EFI_GRAPHICS_OUTPUT_MODE_INFORMATION)
abbrev pub information_size : ℕ
information_size = 36

-- sizeof (EFI_GRAPHICS_OUTPUT_PROTOCOL_MODE)
abbrev pub mode_size : ℕ
mode_size = 40

-- The mode that SimpleFbDxeInitialize sets. PixelBlueGreenRedReserved8BitPerColor is 1.
pub mode_of : FrameBuffer → Mode
mode_of fb = record {
  max_mode = 1;
  mode = 0;
  info = record {
    version = 0;
    horizontal_resolution = fb.width;
    vertical_resolution = fb.height;
    pixel_format = 1;
    pixels_per_scan_line = fb.stride / fb_bytes_per_pixel;
  };
  size_of_info = information_size;
  frame_buffer_base = fb.base;
  frame_buffer_size = u64 (fb.stride * fb.height);
}

-- The boot services and FrameBufferBltLib: whether AllocatePool has memory for a size, LocateProtocol
-- of the CPU architecture protocol with its SetMemoryAttributes, FrameBufferBltConfigure by the size
-- of the configuration that it is given, EFI_GRAPHICS_OUTPUT_PROTOCOL_GUID as its bytes, and
-- InstallMultipleProtocolInterfaces.
pub record Services : Type 0 where
  pub has_pool : ℕ → Bool
  pub locate_cpu : Status
  pub set_memory_attributes : Option (ℕ → ℕ → Status)
  pub blt_configure : ℕ → ModeInformation → ℕ → Status × ℕ
  pub graphics_output_guid : List ℕ
  pub install : DevicePath → Mode → Status

-- mDisplayDevicePath, with EFI_GRAPHICS_OUTPUT_PROTOCOL_GUID
abbrev pub display_device_path : List ℕ → DevicePath
display_device_path graphics_output_guid =
    hardware_vendor (byte_fields graphics_output_guid) ++ end_node

-- DisplaySetMode
pub display_set_mode : ℕ → Status
display_set_mode mode_number = success

-- DisplayQueryMode: SizeOfInfo and a copy of the information. `fault` is a write through NULL.
pub display_query_mode : Services → Mode → ℕ → Result (ℕ × ModeInformation)
display_query_mode s m mode_number =
    if not (s.has_pool information_size)
    then fault
    else ok (
      information_size,
      record {
        version = m.info.version;
        horizontal_resolution = m.info.horizontal_resolution;
        vertical_resolution = m.info.vertical_resolution;
        pixel_format = m.info.pixel_format;
        pixels_per_scan_line = m.info.pixels_per_scan_line;
      },
    )

-- DisplayBlt, with the status of FrameBufferBlt.
pub display_blt : Status → Status
display_blt blt = if is_error blt then invalid_parameter else success

-- SetSimpleFrameBufferMemoryAttributes
pub set_frame_buffer_memory_attributes : Platform → Services → FrameBuffer → Result Status
set_frame_buffer_memory_attributes p s fb = do
  range ← uemu_fdt_align_range p fb.base fb.size 1 1
  if is_error s.locate_cpu then ok s.locate_cpu else elim s.set_memory_attributes [
    | none ↦ ok s.locate_cpu
    | some set_attributes ↦ ok (set_attributes range.0 range.1)
  ]

-- The size of mFrameBufferBltLibConfigure: that of the first call, which is given no buffer, where
-- it asks for one and there is memory.
pub configure_blt : Services → Mode → Status × ℕ
configure_blt s m =
    let first = s.blt_configure m.frame_buffer_base m.info 0 in
    if is_buffer_too_small first.0 && s.has_pool first.1
    then s.blt_configure m.frame_buffer_base m.info first.1
    else first

-- What SimpleFbDxeInitialize has done: its status, those of the calls whose status it drops, the mode
-- of mDisplay where the protocol is installed, and the memory it cleared.
pub record Started : Type 0 where
  pub status : Status
  pub attributes : Option (Result Status)
  pub configured : Option (Status × ℕ)
  pub published : Option Mode
  pub cleared : Option (ℕ × ℕ)

abbrev pub stopped : Status → Started
stopped s = record {
  status = s;
  attributes = none;
  configured = none;
  published = none;
  cleared = none;
}

-- SimpleFbDxeInitialize behind GetSimpleFrameBuffer, from a state where nothing is allocated. An
-- ASSERT on a status is empty, as in a release build.
pub start_display : Platform → Services → FrameBuffer → Started
start_display p s fb =
    let m = mode_of fb in
    if not (s.has_pool mode_size) || not (s.has_pool information_size)
    then stopped out_of_resources
    else record {
      status = s.install (display_device_path s.graphics_output_guid) m;
      attributes = some (set_frame_buffer_memory_attributes p s fb);
      configured = some (configure_blt s m);
      published =
          if is_error (s.install (display_device_path s.graphics_output_guid) m)
          then none
          else some m;
      cleared = some (m.frame_buffer_base, m.frame_buffer_size);
    }

-- SimpleFbDxeInitialize; an `err` is the status it returns where there is no frame buffer.
pub simple_fb_dxe_initialize : Platform → Services → ℕ → Option (Result Started)
simple_fb_dxe_initialize p s fuel = elim (get_simple_frame_buffer p fuel) [
  | none ↦ none
  | some (err status) ↦ some (err status)
  | some fault ↦ some fault
  | some (ok fb) ↦ some (ok (start_display p s fb))
]
