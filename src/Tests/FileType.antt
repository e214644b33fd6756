-- ===== src/Tests/FileType.antt =====
-- The theorems on sector-storage/storiface/filetype.go for a sector of 32 GiB.
use venus_sealer.Prelude.{◌≡◌, refl, some}
use venus_sealer.FileType.{has, space_use_from, fs_overhead_seal, seal_space_use}

-- The sealed file and the cache: 15.1 sectors while sealing.
sealing_space : seal_space_use 6 34359738368 ≡ some 518832049356
unfolding seal_space_use space_use_from has fs_overhead_seal
sealing_space = refl
