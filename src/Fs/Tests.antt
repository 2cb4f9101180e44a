-- ===== src/Fs/Tests.antt =====
-- A small disk: 8 blocks, of which 4 to 7 are free, and a file "a" in the root directory.
use buaa_os_25spring.Prelude.{
  ℕ, ◌≡◌, refl, ◌⊎◌, arith, true, false, none, List, [], ◌∷◌, ◌==◌, leb, if◌then◌else◌,
}
use buaa_os_25spring.Exec.{ok, Run}
use buaa_os_25spring.Exec.Ends.{Ends}
use buaa_os_25spring.Fs.{Fs, s_root}
use buaa_os_25spring.Fs.Block.{
  alloc_from, free_block, alloc_block_num, alloc_block, fs_sync, read_block,
}
use buaa_os_25spring.Fs.Block.Alloc.{
  BitmapMapped, Allocated, Full, BlockReady, NoRoom, alloc_block_num_lem, alloc_block_lem,
}
use buaa_os_25spring.Fs.Block.Free.{Freed, free_block_lem}
use buaa_os_25spring.Fs.Block.Sync.{AllSynced, fs_sync_lem}
use buaa_os_25spring.Fs.File.{file_get_block}
use buaa_os_25spring.Fs.Dir.{dir_lookup}
use buaa_os_25spring.Fs.Path.{Walked, found, walk_from, walk_path}
use buaa_os_25spring.Fs.Path.Names.{walk_names, walk_from_enough, walk_path_lem}

abbrev small_cache : ℕ → ℕ
small_cache w =
    if w == 1024
    then 0x68286097
    else if w == 1025
    then 8
    else if w == 1058
    then 4096
    else if w == 1059
    then 1
    else if w == 1060
    then 3
    else if w == 2048
    then 240
    else if w == 3072
    then 97
    else 0

abbrev small_disk : Fs
small_disk = record {
  cache = small_cache;
  disk = λ w. 0;
  mapped = λ b. leb b 3;
  dirty = λ b. b == 3;
  room = 1;
  shared = λ b. false;
  super = true;
  bitmap = true;
}

small_disk-BitmapMapped : BitmapMapped small_disk
small_disk-BitmapMapped j h = ground arith

-- The number that a run returns, and the state that it leaves.
abbrev returned : Run Fs ℕ → ℕ
returned (ok b s) = b
returned _ = 0

-- Block 4 is the first free one.
first_free : returned (alloc_block small_disk) ≡ 4
unfolding alloc_block alloc_block_num alloc_from
first_free = refl

alloc_block_num_lem_example :
    Ends (Allocated small_disk) (Full small_disk) (alloc_block_num small_disk)
alloc_block_num_lem_example = alloc_block_num_lem small_disk small_disk-BitmapMapped

alloc_block_lem_example :
    Ends
      (BlockReady small_disk)
      (λ e t. Full small_disk e t ⊎ NoRoom small_disk e t)
      (alloc_block small_disk)
alloc_block_lem_example = alloc_block_lem small_disk small_disk-BitmapMapped

free_block_lem_example : Ends (λ _ t. Freed 3 small_disk t) (λ _ _. ⊥) (free_block 3 small_disk)
free_block_lem_example = free_block_lem 3 small_disk refl

fs_sync_lem_example : Ends (λ _. AllSynced small_disk) (λ _ _. ⊥) (fs_sync small_disk)
fs_sync_lem_example = fs_sync_lem small_disk

-- The path "a/b".
abbrev a_b : List ℕ
a_b = 97 ∷ 47 ∷ 98 ∷ []

more_fuel : walk_from 9 a_b none s_root small_disk ≡ walk_from 3 a_b none s_root small_disk
more_fuel = walk_from_enough 9 a_b none s_root small_disk refl (omega arith)

-- The path "//a/".
walk_path_lem_example :
    walk_path (47 ∷ 47 ∷ 97 ∷ 47 ∷ []) small_disk
    ≡ walk_names ((97 ∷ []) ∷ []) none s_root small_disk
walk_path_lem_example = walk_path_lem (47 ∷ 47 ∷ 97 ∷ 47 ∷ []) small_disk

abbrev found_at : Run Fs Walked → ℕ
found_at (ok (found dir f) s) = f
found_at _ = 0

finds_a : found_at (walk_path (47 ∷ 97 ∷ []) small_disk) ≡ 3072
unfolding walk_path dir_lookup file_get_block read_block
finds_a = refl
