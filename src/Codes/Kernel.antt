-- ===== src/Codes/Kernel.antt =====
-- The return codes of firmware/2lib/include/2return_codes.h that only the kernel's functions use.
use cbmc_vboot.Prelude.{ℕ}

abbrev pub error_preamble_bootloader_outside : ℕ
error_preamble_bootloader_outside = 0x1007000d

abbrev pub error_preamble_vmlinuz_header_outside : ℕ
error_preamble_vmlinuz_header_outside = 0x1007000e

abbrev pub error_kernel_keyblock_workbuf_header : ℕ
error_kernel_keyblock_workbuf_header = 0x10080013

abbrev pub error_kernel_keyblock_workbuf : ℕ
error_kernel_keyblock_workbuf = 0x10080014

abbrev pub error_kernel_keyblock_version_range : ℕ
error_kernel_keyblock_version_range = 0x10080015

abbrev pub error_kernel_keyblock_version_rollback : ℕ
error_kernel_keyblock_version_rollback = 0x10080016

abbrev pub error_kernel_keyblock_dev_flag : ℕ
error_kernel_keyblock_dev_flag = 0x10080017

abbrev pub error_kernel_keyblock_rec_flag : ℕ
error_kernel_keyblock_rec_flag = 0x10080018

abbrev pub error_kernel_preamble2_data_key : ℕ
error_kernel_preamble2_data_key = 0x10080019

abbrev pub error_kernel_preamble2_workbuf_header : ℕ
error_kernel_preamble2_workbuf_header = 0x1008001a

abbrev pub error_kernel_preamble2_workbuf : ℕ
error_kernel_preamble2_workbuf = 0x1008001b

abbrev pub error_kernel_preamble_version_range : ℕ
error_kernel_preamble_version_range = 0x1008001c

abbrev pub error_kernel_preamble_version_rollback : ℕ
error_kernel_preamble_version_rollback = 0x1008001d

abbrev pub error_api_get_kernel_size_preamble : ℕ
error_api_get_kernel_size_preamble = 0x1008001e

abbrev pub error_api_kphase1_workbuf_rec_key : ℕ
error_api_kphase1_workbuf_rec_key = 0x10090013

abbrev pub error_api_kphase1_preamble : ℕ
error_api_kphase1_preamble = 0x10090014

abbrev pub error_api_verify_kdata_size : ℕ
error_api_verify_kdata_size = 0x10090015

abbrev pub error_api_verify_kdata_preamble : ℕ
error_api_verify_kdata_preamble = 0x10090016

abbrev pub error_api_verify_kdata_workbuf : ℕ
error_api_verify_kdata_workbuf = 0x10090017

abbrev pub error_api_verify_kdata_key : ℕ
error_api_verify_kdata_key = 0x10090018
