-- ===== src/Pimsm/Params.antt =====
-- apps/pimc/pimsm/PIMSMParams.hpp: the sizes of the parts of a Join/Prune message, in bytes.
use pimc_toolkit.Common.{ℕ, ◌+◌}

abbrev pub pim_hdr_size : ℕ
pim_hdr_size = 4

abbrev pub hello_option_hdr_size : ℕ
hello_option_hdr_size = 4

abbrev pub pim_jp_hdr_size : ℕ
pim_jp_hdr_size = pim_hdr_size + 10

abbrev pub jp_capacity : ℕ
jp_capacity = 1466

abbrev pub grp_a_size : ℕ
grp_a_size = 8

abbrev pub grp_hdr_size : ℕ
grp_hdr_size = grp_a_size + 2 + 2

abbrev pub src_a_size : ℕ
src_a_size = 8

abbrev pub min_entry_size : ℕ
min_entry_size = grp_hdr_size + src_a_size

abbrev pub max_prune_sgrpt_len : ℕ
max_prune_sgrpt_len = 180
