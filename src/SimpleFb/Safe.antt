-- ===== src/SimpleFb/Safe.antt =====
-- GetSimpleFrameBuffer of SimpleFbDxe.c runs without undefined behaviour on every device tree.
use edk2_uemu.Common.{some-injective, ℕ, ◌≢◌, refl, some, Option-cases, inl, inr, arith}
use edk2_uemu.Common.{ap, ◌∙◌}
use edk2_uemu.Common.Int.{ℤ}
use edk2_uemu.Efi.{Result, ok, err, fault, ◌>>=◌, Result-cases}
use edk2_uemu.Text.{Text, codes}
use edk2_uemu.Fdt.{Platform, uemu_fdt_get, uemu_fdt_find_compatible_node}
use edk2_uemu.Fdt.Reg.{HasLengths, get_reg_reads_inside}
use edk2_uemu.Fdt.Safe.{get-ne-fault, find-ne-fault, get_u32-ne-fault, get_string-ne-fault}
use edk2_uemu.SimpleFb.{FrameBuffer, check_frame_buffer, read_frame_buffer, get_simple_frame_buffer}

-- The stride is not 0 where the code divides by it.
check-ne-fault : (fb : FrameBuffer) (format : Text) → check_frame_buffer fb format ≢ fault
unfolding check_frame_buffer
check-ne-fault fb format = ground arith

-- A chain faults only where one of its steps does.
>>=-ne-fault {ℓ κ} :
    {A : Type ℓ} {B : Type κ} (m : Result A) (f : A → Result B)
    → m ≢ fault
    → ((a : A) → f a ≢ fault)
    → (m >>= f) ≢ fault
>>=-ne-fault (ok a) f h g = g a
>>=-ne-fault (err s) f h g = λ e. cc
>>=-ne-fault fault f h g = absurd (h refl)

read-ne-fault :
    (p : Platform) (fdt : ℕ) (node : ℤ) → HasLengths p → read_frame_buffer p fdt node ≢ fault
unfolding read_frame_buffer
read-ne-fault p fdt node l = >>=-ne-fault _ _ (get_reg_reads_inside p fdt node 0 1 1 l) λ reg.
    >>=-ne-fault _ _ (get_u32-ne-fault p fdt node (codes "width") 1 l) λ width.
      >>=-ne-fault _ _ (get_u32-ne-fault p fdt node (codes "height") 1 l) λ height.
        >>=-ne-fault _ _ (get_u32-ne-fault p fdt node (codes "stride") 1 l) λ stride.
          >>=-ne-fault _ _ (get_string-ne-fault p fdt node (codes "format") 1)
            λ format. check-ne-fault _ format.0

-- Whatever the device tree holds, GetSimpleFrameBuffer neither reads outside a property nor divides
-- by a stride of 0.
pub get_frame_buffer_safe :
    (p : Platform) (fuel : ℕ) → HasLengths p → get_simple_frame_buffer p fuel ≢ some fault
unfolding get_simple_frame_buffer
get_frame_buffer_safe p fuel l = elim (Result-cases (uemu_fdt_get p 1)) [
  | inr (inr e) ↦ absurd (get-ne-fault p 1 e)
  | inr (inl (s, e)) ↦ ground (arith, e)
  | inl (fdt, e) ↦
      elim (Option-cases
        (uemu_fdt_find_compatible_node p fuel fdt (some (codes "simple-framebuffer")) 1)) [
          | inl none_left ↦ ground (arith, e, none_left)
          | inr (found, f) ↦
              let inner =
                >>=-ne-fault found (λ node. read_frame_buffer p fdt node)
                  (λ bad.
                    find-ne-fault p fuel fdt (some (codes "simple-framebuffer")) 1
                      (f ∙ ap some bad))
                  (λ node. read-ne-fault p fdt node l) in
              rw (e, f, get_simple_frame_buffer) (λ bad. inner (some-injective bad))
        ]
]
