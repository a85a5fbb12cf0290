-- ===== src/Lib.antt =====
-- The drivers and libraries of UemuPkg, the UEFI firmware for the uemu RISC-V emulator, as
-- definitions that run, with the properties that make them correct.
--
-- A device tree describes the platform. The security phase finds the memory and the I/O ranges in
-- it and hands a copy of it over in a HOB. UemuFdtLib reads it there, and every driver starts by
-- asking it for the registers of its device: the keyboard, the random number generator, the real
-- time clock, the battery and the frame buffer. A driver then publishes a UEFI protocol whose
-- functions work on the registers and on the driver's own data. The SMBIOS driver publishes the
-- processor and the memory as tables, and the boot manager's library connects devices, lists the
-- consoles, keeps the boot options and waits for a key where nothing can be booted.
--
--   Common            Boolean tests, lists and words over the native numbers, signed numbers (Common/Int)
--                     and laws of the bit operations (Common/Bits).
--   Efi, Text, Mmio   EFI_STATUS and calls with OUT parameters, C strings, a device behind its registers.
--   Packed            packed little-endian structures, such as those of the SMBIOS tables, as their bytes.
--   DevicePath        device paths as their bytes.
--   Fdt               UemuPkg/Library/UemuFdtLib/UemuFdtLib.c. Fdt/Cells is about DecodeCells, Fdt/Align
--                     about UemuFdtAlignRange, Fdt/Reg about UemuFdtGetReg, Fdt/Find about
--                     UemuFdtFindCompatibleNode, Fdt/Strings about UemuFdtGetString, Fdt/Safe about the
--                     memory that the others read.
--   Discover          the calls of UemuFdtLib by which the drivers find their registers, and the declaration
--                     of their pages; Discover/Covers shows that the pages hold the registers.
--   Events            UemuPkg/Drivers/GoldfishEventsDxe/GoldfishEventsDxe.c. Events/Codes are the codes of
--                     the keys and the tables, Events/Keys is ConvertKeyCode, Events/Init the entry point,
--                     Events/Device the rest of the driver;
--                     Events/Convert, Events/Poll, Events/Batch, Events/Notify, Events/Unique, Events/Dispatch and
--                     Events/Start reason about them.
--   Rng               UemuPkg/Drivers/Bcm2835RngDxe/Bcm2835RngDxe.c, with lengths that are a multiple of 4
--                     in Rng/Aligned, the others in Rng/Unaligned, and the entry point in Rng/Start.
--   Rtc               UemuPkg/Library/GoldfishRealTimeClockLib/GoldfishRealTimeClockLib.c:
--                     Rtc/RoundTrip is about setting and reading the time, Rtc/Start about the start,
--                     Rtc/Virtual about the clock of an operating system that moved the registers.
--   SimpleFb          UemuPkg/Drivers/SimpleFbDxe/SimpleFbDxe.c: SimpleFb/Fits is about
--                     the bounds of the frame buffer, SimpleFb/Safe about undefined behaviour.
--   Battery           UemuPkg/Drivers/GoldfishBatteryDxe/GoldfishBatteryDxe.c: Battery/Record is about
--                     building an SMBIOS record, Battery/Table about what a reader finds in the
--                     battery's, Battery/Start about the entry point and the protocol.
--   Sec               UemuPkg/Library/PlatformSecLib: Sec/Memory is Memory.c, Sec/Io Platform.c, Sec/Startup
--                     PlatformSecLib.c with SecEntry.S and Cpu.c. Sec/Ranges, Sec/Walk and Sec/Map are about the
--                     memory map, Sec/Resources and Sec/Devices about the I/O ranges, Sec/FirstHob and
--                     Sec/Handoff about the device tree that the other parts find, Sec/Stack about the
--                     temporary memory. Sec/Ppi is the hand-off data of PlatformSecLib.c that a PEI core
--                     would get, Sec/Core the whole start up to the DXE core.
--   Smbios            UemuPkg/Drivers/PlatformSmbiosDxe/PlatformSmbiosDxe.c: the records and their strings,
--                     Smbios/Fields and Smbios/Template are the structures with their members,
--                     Smbios/Sort is QuickSortInt32, Smbios/Cpu the processor, Smbios/Memory the memory and
--                     Smbios/Driver the entry point. Smbios/Reader reads a record by the specification,
--                     Smbios/Members says what is to be found in it, Smbios/Records and Smbios/Versions
--                     are about reading it. Smbios/Array, Smbios/Keeps, Smbios/Scan,
--                     Smbios/Partition and Smbios/Sorted are about the sort, Smbios/Frequency about the
--                     frequency that it is timed for, Smbios/Strings about the strings, Smbios/Regions and
--                     Smbios/Total about the memory, Smbios/Entry about the entry point.
--   Boot              UemuPkg/Library/PlatformBootManagerLib/PlatformBm.c: Boot/Pci holds the filters and what
--                     is done before the console, Boot/Keys the hot keys, Boot/Options the boot options,
--                     Boot/After what is done behind the console, Boot/Unable what is done where nothing
--                     can be booted; Boot/Outputs and Boot/Consoles are about the consoles, Boot/Rng about
--                     the filter of entropy sources, Boot/Stale about the boot options that are removed.
--
-- A C function is a definition of the same name in lower case. An OUT parameter is a part of the
-- result; an IN pointer that may be NULL is an Option or an address with NULL as 0. A status that
-- is an error is `err`, and `fault` is undefined behaviour: a read outside an object, a division
-- by zero, a write through NULL. UINTN is 64 bits wide, the CPU is little-endian, and arithmetic
-- that wraps has its modulus written out. The driver's private data is passed from call to call,
-- and a device is a state of any type whose registers `Mmio` reads and writes.
--
-- Some loops walk what the program does not bound: the searches for a node and the walks over all
-- nodes, bounded by the nodes that libfdt enumerates, those over the tuples of a `reg`, bounded by
-- its bytes, and the reading of events, bounded by those that the device holds. They, and the sort
-- of the SMBIOS driver, whose depth its range bounds, run on fuel with `none` for its end, and the
-- theorems about them give enough fuel for the result. The outer loop of the random number driver
-- runs on fuel in the same way, and so does the draining of keys of the boot manager, bounded by
-- the keys that wait. Its last loop has no end: the model takes any number of its rounds. The
-- retries of the random number driver, and all other loops, are recursion on the rounds left.
--
-- Code of others is a parameter with what it documents as hypotheses: libfdt and HobLib
-- (Fdt.Platform, Sec.Libfdt), the registers (Mmio), TimeBaseLib (Rtc.TimeBaseLib), the boot and
-- DXE services, FrameBufferBltLib, the SMBIOS protocol and the FDT client (Smbios), and
-- UefiBootManagerLib (Boot). Callbacks are taken not to change the driver's data. BaseLib's shifts
-- and ASCII string functions are written out where the code depends on their value, and UEFI's
-- constants are those of its specification, as the widths of the members of an SMBIOS structure and
-- of a node of a device path are; the bytes that EDK2's type of a structure may have behind the
-- members that an initializer names are the parameter `behind`. Task priorities only keep the timer
-- out of a critical section and are not modelled, and neither are debug prints and the GUIDs of
-- protocols. A release build is modelled, in which an ASSERT is empty.
--
-- Not modelled: the package's build and configuration files, which hold no logic of the firmware. In
-- UemuPkg/Library/PlatformSecLib, what a PEI core does, which is code of others and not built, and
-- SecPlatformInformation and SecPlatformDisableTemporaryMemory, which have no effect. The bytes that
-- FdtOpenInto and the other functions of libfdt write or read are not modelled: libfdt answers by the
-- address of the tree, and whether a copy passes FdtCheckHeader is one of its answers.
pub mod Common
pub mod Efi
pub mod Text
pub mod Packed
pub mod DevicePath
pub mod Fdt
pub mod Mmio
pub mod Discover
pub mod Events
pub mod Rng
pub mod Rtc
pub mod SimpleFb
pub mod Battery
pub mod Sec
pub mod Smbios
pub mod Boot
