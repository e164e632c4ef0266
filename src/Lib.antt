-- ===== src/Lib.antt =====
-- The netANALYZER driver: a model of its toolkit and proofs about it.
--
-- The driver of Hilscher's netANALYZER cards is a kernel module around a toolkit
-- (netanalyzer_kernel_mod/toolkit) and a user library that reaches it through sysfs. The toolkit
-- shares a dual-port memory with the firmware on the card. It loads the firmware in packets,
-- passes commands by toggling handshake bits and waiting for the firmware to toggle them too, and
-- takes captured frames from DMA buffers that the firmware fills, to files and to a callback.
--
-- Which file models what:
--   Prelude     names of the libraries, tests on numbers, C arrays as lists, words and their bits.
--   Codes       return codes of toolkit/Include/netana_errors.h.
--   Text        printf and scanf, as libnetana/netana_functions.c and
--               netanalyzer_kernel_mod/netana_tk_interface.c use them with each other.
--   Device      struct NETANA_DEVINSTANCE_T of toolkit/netana_toolkit.h, with the blocks of the
--               dual-port memory (toolkit/netana_dpmlayout.h) that it points to.
--   System      a thread of the toolkit: the device, the returns of its waits, its files. System.Run
--               is what it means that a function returns with a result.
--   Handshake   GetHskBitState, netana_tkit_WaitForBitState, netana_tkit_ToggleBit of
--               toolkit/netana_functions.c.
--   Interrupt   toolkit/netana_interrupt.c. Interrupt.Interleaving lets interrupts come at any moment of
--               a DSR.
--   Command     netana_get_portstat, netana_access_phy_reg, netana_resync_time,
--               netana_config_pi_controller and netana_check_device_ident of
--               toolkit/netana_functions.c.
--   Mailbox     put_packet, get_packet, netana_put_packet, netana_get_packet and netana_get_mbx_state
--               of toolkit/netana_functions.c.
--   Crc32       Crc32Table and CreateCRC32 of toolkit/netana_toolkit.c.
--   Download    DownloadFile of toolkit/netana_toolkit.c.
--   Filter      netana_get_filter and netana_set_filter of toolkit/netana_functions.c.
--   Gpio        the functions netana_..._gpio_... of toolkit/netana_functions.c.
--   Capture     toolkit/netana_capture.c.
--   Session     OpenCaptureFiles, CloseCaptureFiles, netana_set_filelist, netana_start_capture,
--               netana_stop_capture, netana_get_state and netana_file_info of
--               toolkit/netana_functions.c.
--   Registry    netana_enum_device, netana_open_device and netana_close_device of
--               toolkit/netana_functions.c.
--   Boot        WaitForBitStatePollBL, PutPacketBL, GetPacketBL and TransferPacket of
--               toolkit/netana_toolkit.c, on the memory of a card that runs its boot loader.
--               Boot.Wire writes packets as bytes and puts TransferPacket under DownloadFile.
--   Layout      the part of netana_tkit_deviceadd (toolkit/netana_toolkit.c) that finds the blocks in
--               the dual-port memory.
--   Loader      netx_reset, RequestDeviceClass, netx100_start_bootloader and netx_download_bootloader
--               of toolkit/netana_toolkit.c.
--   Bringup     CreateIrqEvents, DeleteIrqEvents, netx_update_ident_info, StartFirmware,
--               DownloadAndStartFirmware, the rest of netana_tkit_deviceadd, and
--               netana_tkit_deviceremove, all of toolkit/netana_toolkit.c.
--   Tasks       the table of errors and timeouts in netanalyzer_kernel_mod/netana_tk_interface.c.
--   Attributes  the functions of that file that the writes and reads of attribute files call.
--   Library     calls of libnetana/netana_functions.c that go through attribute files:
--               CheckDeviceHandle, get_error, get_attribute_handle, netana_set_gpio_mode,
--               netana_get_gpio_mode, netana_set_gpio_output, netana_set_gpio_voltage,
--               netana_config_pi_controller, netana_resync_time, netana_signal_drv_error,
--               update_timeout and netana_access_phy_reg.
--   Classes     USER_SetDevClassFilter, USER_GetDevClassFilter and USER_ClearDevClassFilter of
--               netanalyzer_kernel_mod/USER_Linux.c.
--   Management  netana_mngmt_exec_cmd of toolkit/netana_functions.c.
--   Sample      a device for the tests.
--
-- A pointer of the device instance is replaced by what it points to, and a null pointer is none.
-- Words of 32 and 64 bits wrap around where the code computes on them. Code outside the toolkit
-- is given as data: what happens while a thread waits is a list of wakes, each with the clock and
-- a change of the device; a disk is the function that says how many bytes of a write it takes;
-- the transfer of one packet in a download is a function on a state of its own (for which Boot.Wire
-- takes TransferPacket), opening a file is
-- a function of its name, and so is the comparison of two names.
--
-- A card that is polled is given as a list of polls, one for each reading of the clock or sleep, with
-- what the card does meanwhile. Every round of such a loop takes a poll, so that the number of polls is
-- fuel enough; a thread that runs out of polls is still polling. What the PCI configuration does in a
-- reset, and the memory of a card whose firmware runs, are given.
--
-- Loops that the code bounds by a list are recursions on it. The download takes one round more for
-- the request and for the abort than the file has bytes, and its fuel is that number, which is
-- shown to be enough. The loop over the DMA buffers clears a bit of a number in every round, and
-- its fuel is above that number. A wait recurs on the list of wakes. A number is printed
-- with fuel 10 in decimal digits, 20 for 64 bits, and 8 in hexadecimal ones, which Text.RoundTrip
-- shows to be enough. The wait for the end of a capture has the 50 rounds that the code has.
--
-- A call of the user library is a write to an attribute file, which the kernel module handles with a
-- call of the toolkit; the code of that call is kept in the table of the tasks, from which the library
-- reads it through another attribute. An attribute file is the function of the kernel module behind it.
--
-- Not modelled: locks and traces, null pointers for arguments that a caller must give, the registration of
-- devices and attributes with the kernel (netana.c, netana_enum.c, netana_sysfs.c, OS_Linux.c and
-- the rest of USER_Linux.c), the other functions of the user library, and the alias names of devices.
pub mod Prelude
pub mod Codes
pub mod Text
pub mod Device
pub mod System
pub mod Sample
pub mod Handshake
pub mod Interrupt
pub mod Command
pub mod Mailbox
pub mod Crc32
pub mod Download
pub mod Filter
pub mod Gpio
pub mod Capture
pub mod Session
pub mod Registry
pub mod Boot
pub mod Layout
pub mod Loader
pub mod Bringup
pub mod Tasks
pub mod Attributes
pub mod Library
pub mod Classes
pub mod Management
