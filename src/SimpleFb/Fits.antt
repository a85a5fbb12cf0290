-- ===== src/SimpleFb/Fits.antt =====
-- What a success of GetSimpleFrameBuffer in SimpleFbDxe.c guarantees of the frame buffer.
use edk2_uemu.Common.{
  some-injective, ◌↔◌, inl, inr, Option-cases, ap, ℕ, ◌+◌, ◌*◌, ◌/◌, ◌%◌, ◌^◌, ◌≤◌, ◌<◌, ◌≡◌, ◌∙◌,
  refl, false, some, arith, max_uint64, u64,
}
use edk2_uemu.Efi.{ok, ◌>>=◌, >>=-eq-ok, Result-cases, is_error}
use edk2_uemu.Common.Int.{ℤ}
use edk2_uemu.Text.{Text, codes}
use edk2_uemu.Fdt.{
  Platform, uemu_fdt_get, uemu_fdt_find_compatible_node, uemu_fdt_get_reg, uemu_fdt_get_u32,
  uemu_fdt_get_string,
}
use edk2_uemu.SimpleFb.{
  FrameBuffer, check_frame_buffer, read_frame_buffer, get_simple_frame_buffer, mode_of, Services,
  Started, start_display, simple_fb_dxe_initialize,
}

-- A picture of whole rows in the range of the frame buffer.
pub record IsUsable (fb : FrameBuffer) : Type 0 where
  pub wide : 0 < fb.width
  pub high : 0 < fb.height
  pub whole_pixels : fb.stride % 4 ≡ 0
  pub row_fits : fb.width * 4 ≤ fb.stride
  pub rows_fit : fb.stride * fb.height ≤ fb.size
  pub no_wrap : fb.stride * fb.height < 2 ^ 64

product_bound : (a b m : ℕ) → b ≤ m / a → a * b ≤ m
product_bound a b m h = grind arith

check-IsUsable :
    (fb r : FrameBuffer) (format : Text)
    → check_frame_buffer fb format ≡ ok r
    → (r ≡ fb) × IsUsable fb
unfolding check_frame_buffer
check-IsUsable fb r format h = ground (arith, product_bound fb.stride fb.height max_uint64)

read-IsUsable :
    (p : Platform) (fdt : ℕ) (node : ℤ) (fb : FrameBuffer)
    → read_frame_buffer p fdt node ≡ ok fb
    → IsUsable fb
unfolding read_frame_buffer
read-IsUsable p fdt node fb h =
    let (reg, _, h1) = >>=-eq-ok (uemu_fdt_get_reg p fdt node 0 1 1) _ h in
    let (width, _, h2) = >>=-eq-ok (uemu_fdt_get_u32 p fdt node (some (codes "width")) 1) _ h1 in
    let (height, _, h3) = >>=-eq-ok (uemu_fdt_get_u32 p fdt node (some (codes "height")) 1) _ h2 in
    let (stride, _, h4) = >>=-eq-ok (uemu_fdt_get_u32 p fdt node (some (codes "stride")) 1) _ h3 in
    let (format, _, h5) =
      >>=-eq-ok (uemu_fdt_get_string p fdt node (some (codes "format")) 1) _ h4 in
    let (same, usable) = check-IsUsable _ fb format.0 h5 in rw same usable

-- A frame buffer that GetSimpleFrameBuffer accepts is not empty; a row of its pixels fits the stride,
-- which is whole pixels; and all its rows fit the range of the device tree, with no wrap-around.
pub get_frame_buffer-IsUsable :
    (p : Platform) (fuel : ℕ) (fb : FrameBuffer)
    → get_simple_frame_buffer p fuel ≡ some (ok fb)
    → IsUsable fb
unfolding get_simple_frame_buffer
get_frame_buffer-IsUsable p fuel fb h = elim (Result-cases (uemu_fdt_get p 1)) [
  | inr (inl (s, e)) ↦ absurd (ground (arith, e, h))
  | inr (inr e) ↦ absurd (ground (arith, e, h))
  | inl (fdt, e) ↦
      elim (Option-cases
        (uemu_fdt_find_compatible_node p fuel fdt (some (codes "simple-framebuffer")) 1)) [
          | inl none_left ↦ absurd (ground (arith, e, none_left, h))
          | inr (found, f) ↦
              let reads : (found >>= λ node. read_frame_buffer p fdt node) ≡ ok fb =
                some-injective (rw (e, f, get_simple_frame_buffer) at h) in
              let (node, _, r) = >>=-eq-ok found _ reads in read-IsUsable p fdt node fb r
        ]
]

rows_above : (stride y height : ℕ) → y < height → stride * y + stride ≤ stride * height
rows_above stride y height h = grind arith

row_start :
    (pixels stride y x : ℕ) → 4 * pixels ≡ stride → 4 * (y * pixels + x) ≡ stride * y + 4 * x
row_start pixels stride y x h = omega (arith, ap (λ (t : ℕ). y * t) h)

-- For a frame buffer that GetSimpleFrameBuffer accepts, every pixel of the mode that the driver
-- publishes lies in the published frame buffer and in the range of the device tree, and a scan line
-- holds the horizontal resolution.
pub mode_pixel_inside :
    (p : Platform) (fuel : ℕ) (fb : FrameBuffer) (x y : ℕ)
    → get_simple_frame_buffer p fuel ≡ some (ok fb)
    → x < (mode_of fb).info.horizontal_resolution
    → y < (mode_of fb).info.vertical_resolution
    → let m = mode_of fb in
      let offset = 4 * (y * m.info.pixels_per_scan_line + x) in
      (x < m.info.pixels_per_scan_line)
      × (offset + 4 ≤ m.frame_buffer_size)
      × (m.frame_buffer_size ≤ fb.size)
      × (m.frame_buffer_base ≡ fb.base)
unfolding mode_of
mode_pixel_inside p fuel fb x y h hx hy =
    let u = get_frame_buffer-IsUsable p fuel fb h in
    let line : 4 * (fb.stride / 4) ≡ fb.stride = omega (arith, u) in
    let size : u64 (fb.stride * fb.height) ≡ fb.stride * fb.height = omega (arith, u) in
    let rows = rows_above fb.stride y fb.height hy in
    let pixels : 4 * (y * (fb.stride / 4) + x) ≡ fb.stride * y + 4 * x =
      row_start (fb.stride / 4) fb.stride y x line in
    (omega (arith, u), omega (arith, u, rows, pixels, size), omega (arith, u, size), refl)

start_display-cleared :
    (p : Platform) (s : Services) (fb : FrameBuffer) (base size : ℕ)
    → (start_display p s fb).cleared ≡ some (base, size)
    → (base ≡ fb.base) × (size ≡ u64 (fb.stride * fb.height))
unfolding start_display mode_of
start_display-cleared p s fb base size h = ground arith

start_display-published :
    (p : Platform) (s : Services) (fb : FrameBuffer) (base size : ℕ)
    → (start_display p s fb).cleared ≡ some (base, size)
    → ((start_display p s fb).published ≡ some (mode_of fb))
      ↔ (is_error (start_display p s fb).status ≡ false)
unfolding start_display
start_display-published p s fb base size h = ground arith

-- When SimpleFbDxeInitialize runs to its end, the tree has a usable frame buffer, and the memory that
-- the driver clears is the published frame buffer, inside the range of the device tree; what it
-- installs is the mode of that frame buffer, and it installs nothing when the installation fails.
pub initialize_stays_inside :
    (p : Platform) (s : Services) (fuel base size : ℕ) (st : Started)
    → simple_fb_dxe_initialize p s fuel ≡ some (ok st)
    → st.cleared ≡ some (base, size)
    → (fb : FrameBuffer) × (get_simple_frame_buffer p fuel ≡ some (ok fb))
      × IsUsable fb
      × (base ≡ (mode_of fb).frame_buffer_base)
      × (size ≡ (mode_of fb).frame_buffer_size)
      × (base ≡ fb.base)
      × (size ≡ fb.stride * fb.height)
      × (size ≤ fb.size)
      × ((st.published ≡ some (mode_of fb)) ↔ (is_error st.status ≡ false))
unfolding simple_fb_dxe_initialize start_display mode_of
initialize_stays_inside p s fuel base size st h c =
    elim (Option-cases (get_simple_frame_buffer p fuel)) [
      | inl e ↦ absurd (ground (arith, e, h))
      | inr (r, e) ↦ elim (Result-cases r) [
        | inr (inl (status, f)) ↦ absurd (ground (arith, e, f, h))
        | inr (inr f) ↦ absurd (ground (arith, e, f, h))
        | inl (fb, f) ↦
            let reads : get_simple_frame_buffer p fuel ≡ some (ok fb) = rw f at e in
            let u = get_frame_buffer-IsUsable p fuel fb reads in
            let started : start_display p s fb ≡ st = ground (arith, reads, h) in
            let (at_base, in_size) = start_display-cleared p s fb base size (rw started c) in
            let published = start_display-published p s fb base size (rw started c) in
            let whole : u64 (fb.stride * fb.height) ≡ fb.stride * fb.height = omega (arith, u) in
            (
              fb,
              reads,
              u,
              at_base,
              in_size,
              at_base,
              in_size ∙ whole,
              omega (arith, u, in_size),
              rw started at published,
            )
      ]
    ]
