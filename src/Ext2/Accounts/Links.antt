-- ===== src/Ext2/Accounts/Links.antt =====
-- The counters of free blocks and inodes through a run of ext2_ln.
use operating_system_unix_li.Base.{
  ℕ, ◌^◌, ◌*◌, ◌-◌, Bool, true, false, none, some, List, [], ◌∷◌, if◌then◌else◌, not, ltb, arith,
  ◌||◌, ◌==◌, length,
}
use operating_system_unix_li.Ext2.Image.{
  Text, Inode, Image, ret, done, exit, crash, eq_text, get_inode, set_i_block,
}
use operating_system_unix_li.Ext2.Image.Keeps.{
  Holds, Keeps, bind-Keeps, option-Keeps, if-Keeps, get_inode-Keeps,
}
use operating_system_unix_li.Ext2.Alloc.{take_inode, take_block}
use operating_system_unix_li.Ext2.Alloc.Counted.{IsCounted}
use operating_system_unix_li.Ext2.Path.{slash, strip_slash, parent_and_name}
use operating_system_unix_li.Ext2.Directory.Kept.{find_inode-Keeps}
use operating_system_unix_li.Ext2.Ls.{is_absolute}
use operating_system_unix_li.Ext2.Mkdir.{mkdir_main}
use operating_system_unix_li.Ext2.Ln
use operating_system_unix_li.Ext2.Ln.{
  find_source, check_target, store_string, make_symlink, count_link, link, link_paths, last_two,
  s_flag, is_root, ln_paths, ln_main,
}
use operating_system_unix_li.Ext2.Directory.{Found, found, absent, lost}
use operating_system_unix_li.Ext2.Accounts.Directories.{mkdir_main-Keeps}
use operating_system_unix_li.Ext2.Accounts.{
  take_block-Keeps, take_inode-Keeps, inode-Keeps, i_block-Keeps, add-Keeps,
}

ln_find-Keeps : (path : Text) → Keeps IsCounted (Ln.find_dir_inode path)
unfolding Ln.find_dir_inode
ln_find-Keeps path =
    find_inode-Keeps IsCounted (λ name. exit 1) (ret none) (λ name d h. h) (λ d h. h) path

ln_parent-Keeps : (path : Text) → Keeps IsCounted (Ln.find_parent path)
unfolding Ln.find_parent
ln_parent-Keeps path =
    if-Keeps IsCounted (eq_text path (slash ∷ [])) (ret (some 2)) (Ln.find_dir_inode path)
      (λ d h. h) (ln_find-Keeps path)

source_place-Keeps :
    (place : Found)
    → Keeps IsCounted (elim place [
      | lost ↦ crash
      | absent k ↦ exit 2
      | found addr e ↦
          if e.file_type == 2
          then exit 21
          else (if e.inode == 2 ^ 32 - 1 then exit 2 else ret e.inode)
    ])
source_place-Keeps lost = λ d h. tt
source_place-Keeps (absent k) = λ d h. h
source_place-Keeps (found addr e) =
    if-Keeps IsCounted (e.file_type == 2) (exit 21) _ (λ d h. h)
      (if-Keeps IsCounted (e.inode == 2 ^ 32 - 1) (exit 2) (ret e.inode) (λ d h. h) (λ d h. h))

find_source-Keeps : (dir : ℕ) (name : Text) → Keeps IsCounted (find_source dir name)
unfolding find_source
find_source-Keeps dir name =
    bind-Keeps IsCounted (get_inode dir) _ (get_inode-Keeps IsCounted dir)
      (λ inode. bind-Keeps IsCounted (Ln.find_entry inode name) _ (λ d h. h) source_place-Keeps)

target_place-Keeps :
    (inode : Inode) (place : Found)
    → Keeps IsCounted {A = ℕ} (elim place [
      | lost ↦ crash
      | absent k ↦ ret (inode.i_block k)
      | found addr e ↦ if e.file_type == 2 then exit 21 else exit 17
    ])
target_place-Keeps inode lost = λ d h. tt
target_place-Keeps inode (absent k) = λ d h. h
target_place-Keeps inode (found addr e) =
    if-Keeps IsCounted (e.file_type == 2) (exit 21) (exit 17) (λ d h. h) (λ d h. h)

check_target-Keeps : (dir : ℕ) (name : Text) → Keeps IsCounted (check_target dir name)
unfolding check_target
check_target-Keeps dir name =
    bind-Keeps IsCounted (get_inode dir) _ (get_inode-Keeps IsCounted dir) (λ inode.
      bind-Keeps IsCounted (Ln.find_entry inode name) _ (λ d h. h) (target_place-Keeps inode))

store_string-Keeps : (addr : ℕ) (text : Text) → Keeps IsCounted (store_string addr text)
unfolding store_string
store_string-Keeps addr text d h = ground arith

make_symlink-Keeps : (path : Text) → Keeps IsCounted (make_symlink path)
unfolding make_symlink
make_symlink-Keeps path = bind-Keeps IsCounted take_inode _ take_inode-Keeps (λ fresh.
    option-Keeps IsCounted fresh (exit 1) _ (λ d h. h)
      (λ n. bind-Keeps IsCounted _ _ (inode-Keeps n _) (λ _.
        bind-Keeps IsCounted take_block _ take_block-Keeps (λ block.
          bind-Keeps IsCounted _ _
            (option-Keeps IsCounted block done (set_i_block n 0) (λ d h. h) (i_block-Keeps n 0))
            (λ _. bind-Keeps IsCounted (get_inode n) _ (get_inode-Keeps IsCounted n) (λ i.
              bind-Keeps IsCounted _ _ (store_string-Keeps (1024 * i.i_block 0) path)
                (λ _ d h. h)))))))

count_link-Keeps : (sflag : Bool) (n : ℕ) → Keeps IsCounted (count_link sflag n)
unfolding count_link
count_link-Keeps true n = λ d h. h
count_link-Keeps false n = inode-Keeps n _

link-Keeps :
    (sflag : Bool) (path_src : Text) (dir_src : ℕ) (name_src : Text) (dir_tar : ℕ) (name_tar : Text)
    → Keeps IsCounted (link sflag path_src dir_src name_src dir_tar name_tar)
unfolding link
link-Keeps sflag path_src dir_src name_src dir_tar name_tar =
    bind-Keeps IsCounted (find_source dir_src name_src) _ (find_source-Keeps dir_src name_src)
      (λ source.
        bind-Keeps IsCounted (count_link sflag source) _ (count_link-Keeps sflag source) (λ _.
          bind-Keeps IsCounted (check_target dir_tar name_tar) _
            (check_target-Keeps dir_tar name_tar)
            (λ stale.
              bind-Keeps IsCounted _ _
                (if-Keeps IsCounted sflag (make_symlink path_src) (ret source)
                  (make_symlink-Keeps path_src) (λ d h. h))
                (λ n.
                  bind-Keeps IsCounted _ _
                    (add-Keeps (some stale) dir_tar n name_tar (if sflag then 7 else 1))
                    (λ _ d h. h)))))

link_paths-Keeps :
    (sflag : Bool) (path_src path_tar : Text) → Keeps IsCounted (link_paths sflag path_src path_tar)
unfolding link_paths
link_paths-Keeps sflag path_src path_tar =
    option-Keeps IsCounted (parent_and_name path_tar) crash _ (λ d h. tt)
      (λ t.
        option-Keeps IsCounted (parent_and_name path_src) crash _ (λ d h. tt)
          (λ s. bind-Keeps IsCounted (Ln.find_parent t.0) _ (ln_parent-Keeps t.0) (λ tar.
            option-Keeps IsCounted tar (exit 2) _ (λ d h. h)
              (λ dir_tar. bind-Keeps IsCounted (Ln.find_parent s.0) _ (ln_parent-Keeps s.0) (λ src.
                option-Keeps IsCounted src (exit 2) _ (λ d h. h)
                  (λ dir_src. link-Keeps sflag path_src dir_src s.1 dir_tar t.1))))))

ln_paths-Keeps :
    (mapped sflag : Bool) (src tar : Text) → Keeps IsCounted (ln_paths mapped sflag src tar)
unfolding ln_paths
ln_paths-Keeps mapped sflag src tar =
    if-Keeps IsCounted (not (is_absolute tar) || not (is_absolute src)) (exit 1) _ (λ d h. h)
      (if-Keeps IsCounted (is_root tar || is_root src) (exit 1) _ (λ d h. h)
        (if-Keeps IsCounted (not mapped) (exit 1) _ (λ d h. h)
          (if-Keeps IsCounted (ltb 255 (length tar) || ltb 255 (length src)) crash _ (λ d h. tt)
            (link_paths-Keeps sflag (strip_slash src) (strip_slash tar)))))

ln_main-Keeps : (mapped : Bool) (args : List Text) → Keeps IsCounted (ln_main mapped args)
unfolding ln_main
ln_main-Keeps mapped [] = λ d h. h
ln_main-Keeps mapped (a ∷ []) = λ d h. h
ln_main-Keeps mapped (a ∷ b ∷ []) = λ d h. h
ln_main-Keeps mapped (a ∷ b ∷ c ∷ args) =
    ln_paths-Keeps mapped (s_flag (a ∷ b ∷ c ∷ args)) (last_two b c args).0 (last_two b c args).1

-- If the free-block and free-inode counters of the superblock and the group descriptor are the numbers
-- of clear bits in the bitmaps, then they still are when `mkdir` or `ln` ends, whatever its arguments
-- are and with whatever status it ends.
pub main-IsCounted :
    (mapped : Bool) (args : List Text) (d : Image)
    → IsCounted d
    → Holds IsCounted (mkdir_main mapped args d) × Holds IsCounted (ln_main mapped args d)
main-IsCounted mapped args d h = (mkdir_main-Keeps mapped args d h, ln_main-Keeps mapped args d h)
