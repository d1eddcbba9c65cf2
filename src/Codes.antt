-- ===== src/Codes.antt =====
-- The return codes of 2lib/include/2return_codes.h that the modules on work buffers, keys and
-- loading use.
pub mod Kernel
use cbmc_vboot.Prelude.{ℕ}

abbrev pub error_rsa_padding : ℕ
error_rsa_padding = 0x10020001

abbrev pub error_rsa_padding_algorithm : ℕ
error_rsa_padding_algorithm = 0x10020002

abbrev pub error_rsa_verify_algorithm : ℕ
error_rsa_verify_algorithm = 0x10020004

abbrev pub error_rsa_verify_sig_len : ℕ
error_rsa_verify_sig_len = 0x10020005

abbrev pub error_rsa_verify_workbuf : ℕ
error_rsa_verify_workbuf = 0x10020006

abbrev pub error_rsa_verify_digest : ℕ
error_rsa_verify_digest = 0x10020007

abbrev pub error_rsa_padding_size : ℕ
error_rsa_padding_size = 0x10020008

abbrev pub error_align_bigger_than_size : ℕ
error_align_bigger_than_size = 0x10050001

abbrev pub error_align_size : ℕ
error_align_size = 0x10050002

abbrev pub error_inside_parent_wraps : ℕ
error_inside_parent_wraps = 0x10050003

abbrev pub error_inside_member_wraps : ℕ
error_inside_member_wraps = 0x10050004

abbrev pub error_inside_member_outside : ℕ
error_inside_member_outside = 0x10050005

abbrev pub error_inside_data_wraps : ℕ
error_inside_data_wraps = 0x10050006

abbrev pub error_inside_data_outside : ℕ
error_inside_data_outside = 0x10050007

abbrev pub error_unpack_key_sig_algorithm : ℕ
error_unpack_key_sig_algorithm = 0x10050008

abbrev pub error_unpack_key_size : ℕ
error_unpack_key_size = 0x10050009

abbrev pub error_unpack_key_align : ℕ
error_unpack_key_align = 0x1005000a

abbrev pub error_unpack_key_array_size : ℕ
error_unpack_key_array_size = 0x1005000b

abbrev pub error_vdata_sig_size : ℕ
error_vdata_sig_size = 0x1005000d

abbrev pub error_vdata_not_enough_data : ℕ
error_vdata_not_enough_data = 0x1005000e

abbrev pub error_vdata_workbuf_digest : ℕ
error_vdata_workbuf_digest = 0x1005000f

abbrev pub error_vdata_workbuf_hashing : ℕ
error_vdata_workbuf_hashing = 0x10050010

abbrev pub error_vdata_digest_size : ℕ
error_vdata_digest_size = 0x10050011

abbrev pub error_unpack_key_hash_algorithm : ℕ
error_unpack_key_hash_algorithm = 0x10050012

abbrev pub error_inside_data_overlap : ℕ
error_inside_data_overlap = 0x10050013

abbrev pub error_keyblock_too_small_for_header : ℕ
error_keyblock_too_small_for_header = 0x10060001

abbrev pub error_keyblock_magic : ℕ
error_keyblock_magic = 0x10060002

abbrev pub error_keyblock_header_version : ℕ
error_keyblock_header_version = 0x10060003

abbrev pub error_keyblock_size : ℕ
error_keyblock_size = 0x10060004

abbrev pub error_keyblock_sig_outside : ℕ
error_keyblock_sig_outside = 0x10060005

abbrev pub error_keyblock_signed_too_much : ℕ
error_keyblock_signed_too_much = 0x10060006

abbrev pub error_keyblock_signed_too_little : ℕ
error_keyblock_signed_too_little = 0x10060007

abbrev pub error_keyblock_sig_invalid : ℕ
error_keyblock_sig_invalid = 0x10060008

abbrev pub error_keyblock_data_key_outside : ℕ
error_keyblock_data_key_outside = 0x10060009

abbrev pub error_keyblock_data_key_unsigned : ℕ
error_keyblock_data_key_unsigned = 0x1006000a

abbrev pub error_preamble_too_small_for_header : ℕ
error_preamble_too_small_for_header = 0x10070001

abbrev pub error_preamble_header_version : ℕ
error_preamble_header_version = 0x10070002

abbrev pub error_preamble_header_old : ℕ
error_preamble_header_old = 0x10070003

abbrev pub error_preamble_size : ℕ
error_preamble_size = 0x10070004

abbrev pub error_preamble_sig_outside : ℕ
error_preamble_sig_outside = 0x10070005

abbrev pub error_preamble_signed_too_much : ℕ
error_preamble_signed_too_much = 0x10070006

abbrev pub error_preamble_signed_too_little : ℕ
error_preamble_signed_too_little = 0x10070007

abbrev pub error_preamble_sig_invalid : ℕ
error_preamble_sig_invalid = 0x10070008

abbrev pub error_preamble_body_sig_outside : ℕ
error_preamble_body_sig_outside = 0x10070009

abbrev pub error_preamble_kernel_subkey_outside : ℕ
error_preamble_kernel_subkey_outside = 0x1007000a

abbrev pub error_initctx_workbuf_small : ℕ
error_initctx_workbuf_small = 0x10080001

abbrev pub error_initctx_workbuf_align : ℕ
error_initctx_workbuf_align = 0x10080002

abbrev pub error_gbb_workbuf : ℕ
error_gbb_workbuf = 0x10080003

abbrev pub error_gbb_magic : ℕ
error_gbb_magic = 0x10080004

abbrev pub error_gbb_version : ℕ
error_gbb_version = 0x10080005

abbrev pub error_gbb_too_old : ℕ
error_gbb_too_old = 0x10080006

abbrev pub error_gbb_header_size : ℕ
error_gbb_header_size = 0x10080007

abbrev pub error_fw_keyblock_workbuf_root_key : ℕ
error_fw_keyblock_workbuf_root_key = 0x10080008

abbrev pub error_fw_keyblock_workbuf_header : ℕ
error_fw_keyblock_workbuf_header = 0x10080009

abbrev pub error_fw_keyblock_workbuf : ℕ
error_fw_keyblock_workbuf = 0x1008000a

abbrev pub error_fw_keyblock_version_range : ℕ
error_fw_keyblock_version_range = 0x1008000b

abbrev pub error_fw_keyblock_version_rollback : ℕ
error_fw_keyblock_version_rollback = 0x1008000c

abbrev pub error_fw_preamble2_data_key : ℕ
error_fw_preamble2_data_key = 0x1008000d

abbrev pub error_fw_preamble2_workbuf_header : ℕ
error_fw_preamble2_workbuf_header = 0x1008000e

abbrev pub error_fw_preamble2_workbuf : ℕ
error_fw_preamble2_workbuf = 0x1008000f

abbrev pub error_fw_preamble_version_range : ℕ
error_fw_preamble_version_range = 0x10080010

abbrev pub error_fw_preamble_version_rollback : ℕ
error_fw_preamble_version_rollback = 0x10080011

abbrev pub error_api_init_hash_tag : ℕ
error_api_init_hash_tag = 0x10090001

abbrev pub error_api_init_hash_preamble : ℕ
error_api_init_hash_preamble = 0x10090002

abbrev pub error_api_init_hash_workbuf : ℕ
error_api_init_hash_workbuf = 0x10090003

abbrev pub error_api_init_hash_data_key : ℕ
error_api_init_hash_data_key = 0x10090004

abbrev pub error_api_extend_hash_workbuf : ℕ
error_api_extend_hash_workbuf = 0x10090005

abbrev pub error_api_extend_hash_size : ℕ
error_api_extend_hash_size = 0x10090006

abbrev pub error_api_check_hash_preamble : ℕ
error_api_check_hash_preamble = 0x10090007

abbrev pub error_api_check_hash_workbuf : ℕ
error_api_check_hash_workbuf = 0x10090008

abbrev pub error_api_check_hash_size : ℕ
error_api_check_hash_size = 0x10090009

abbrev pub error_api_check_hash_workbuf_digest : ℕ
error_api_check_hash_workbuf_digest = 0x1009000a

abbrev pub error_api_check_hash_tag : ℕ
error_api_check_hash_tag = 0x1009000b

abbrev pub error_api_check_hash_data_key : ℕ
error_api_check_hash_data_key = 0x1009000c

abbrev pub error_api_phase1_recovery : ℕ
error_api_phase1_recovery = 0x1009000e

abbrev pub error_api_pcr_digest : ℕ
error_api_pcr_digest = 0x10090011

abbrev pub error_api_pcr_digest_buf : ℕ
error_api_pcr_digest_buf = 0x10090012

abbrev pub error_api_phase1_secdata_reboot : ℕ
error_api_phase1_secdata_reboot = 0x10090019

abbrev pub error_api_check_digest_size : ℕ
error_api_check_digest_size = 0x1009001a

abbrev pub error_ex_hwcrypto_unsupported : ℕ
error_ex_hwcrypto_unsupported = 0x100a0006
