-- ===== src/Ext2/Accounts/Directories.antt =====
-- The counters of free blocks and inodes through a run of ext2_mkdir.
use operating_system_unix_li.Base.{
  ℕ, ◌+◌, ◌*◌, ◌-◌, Bool, none, some, List, [], ◌∷◌, not, ltb, length,
}
use operating_system_unix_li.Ext2.Image.{
  Text, ret, done, exit, crash, eq_text, get_inode, set_i_block, ext2_dir_rec_len,
}
use operating_system_unix_li.Ext2.Image.Keeps.{
  Keeps, bind-Keeps, option-Keeps, if-Keeps, get_inode-Keeps,
}
use operating_system_unix_li.Ext2.Alloc.{take_inode, take_block}
use operating_system_unix_li.Ext2.Alloc.Counted.{IsCounted}
use operating_system_unix_li.Ext2.Path.{slash, strip_slash, parent_and_name}
use operating_system_unix_li.Ext2.Directory.Kept.{find_inode-Keeps}
use operating_system_unix_li.Ext2.Ls.{is_absolute}
use operating_system_unix_li.Ext2.Mkdir
use operating_system_unix_li.Ext2.Mkdir.{
  init_dir_inode, write_dots, make_dir, mkdir_path, mkdir_main,
}
use operating_system_unix_li.Ext2.Insert.{add_entry}
use operating_system_unix_li.Ext2.Accounts.{
  take_block-Keeps, take_inode-Keeps, inode-Keeps, i_block-Keeps, write-Keeps, add-Keeps,
}

mkdir_find-Keeps : (path : Text) → Keeps IsCounted (Mkdir.find_dir_inode path)
unfolding Mkdir.find_dir_inode
mkdir_find-Keeps path =
    find_inode-Keeps IsCounted (λ name. exit 1) (ret none) (λ name d h. h) (λ d h. h) path

mkdir_parent-Keeps : (path : Text) → Keeps IsCounted (Mkdir.find_parent path)
unfolding Mkdir.find_parent
mkdir_parent-Keeps path =
    if-Keeps IsCounted (eq_text path (slash ∷ [])) (ret (some 2)) (Mkdir.find_dir_inode path)
      (λ d h. h) (mkdir_find-Keeps path)

init_dir-Keeps : (n : ℕ) → Keeps IsCounted (init_dir_inode n)
unfolding init_dir_inode
init_dir-Keeps n = bind-Keeps IsCounted _ _ (inode-Keeps n _) (λ _.
    bind-Keeps IsCounted take_block _ take_block-Keeps
      (λ block. option-Keeps IsCounted block done (set_i_block n 0) (λ d h. h) (i_block-Keeps n 0)))

dots-Keeps : (n parent : ℕ) → Keeps IsCounted (write_dots n parent)
unfolding write_dots
dots-Keeps n parent = bind-Keeps IsCounted (get_inode n) _ (get_inode-Keeps IsCounted n) (λ i.
    bind-Keeps IsCounted _ _ (write-Keeps (1024 * i.i_block 0) n (46 ∷ []) 2 (ext2_dir_rec_len 1))
      (λ _.
        write-Keeps (1024 * i.i_block 0 + ext2_dir_rec_len 1) parent (46 ∷ 46 ∷ []) 2
          (1024 - ext2_dir_rec_len 2)))

make_dir-Keeps : (parent : ℕ) (name : Text) → Keeps IsCounted (make_dir parent name)
unfolding make_dir
make_dir-Keeps parent name = bind-Keeps IsCounted take_inode _ take_inode-Keeps (λ fresh.
    option-Keeps IsCounted fresh (exit 1) _ (λ d h. h)
      (λ n. bind-Keeps IsCounted (init_dir_inode n) _ (init_dir-Keeps n) (λ _.
        bind-Keeps IsCounted (write_dots n parent) _ (dots-Keeps n parent) (λ _.
          bind-Keeps IsCounted (add_entry none parent n name 2) _ (add-Keeps none parent n name 2)
            (λ _. bind-Keeps IsCounted _ _ (inode-Keeps parent _) (λ _ d h. h))))))

mkdir_path-Keeps : (path : Text) → Keeps IsCounted (mkdir_path path)
unfolding mkdir_path
mkdir_path-Keeps path =
    if-Keeps IsCounted (ltb 255 (length path)) crash _ (λ d h. tt)
      (option-Keeps IsCounted (parent_and_name (strip_slash path)) crash _ (λ d h. tt)
        (λ split.
          bind-Keeps IsCounted (Mkdir.find_parent split.0) _ (mkdir_parent-Keeps split.0) (λ parent.
            option-Keeps IsCounted parent (exit 2) _ (λ d h. h)
              (λ p.
                bind-Keeps IsCounted (Mkdir.find_dir_inode (strip_slash path)) _
                  (mkdir_find-Keeps (strip_slash path))
                  (λ old.
                    option-Keeps IsCounted old (make_dir p split.1) (λ _. exit 17)
                      (make_dir-Keeps p split.1) (λ _ d h. h))))))

pub mkdir_main-Keeps : (mapped : Bool) (args : List Text) → Keeps IsCounted (mkdir_main mapped args)
unfolding mkdir_main
mkdir_main-Keeps mapped [] = λ d h. h
mkdir_main-Keeps mapped (image ∷ []) = λ d h. h
mkdir_main-Keeps mapped (image ∷ path ∷ []) =
    if-Keeps IsCounted (not (is_absolute path)) (exit 1) _ (λ d h. h)
      (if-Keeps IsCounted mapped (mkdir_path path) (exit 1) (mkdir_path-Keeps path) (λ d h. h))
mkdir_main-Keeps mapped (image ∷ path ∷ more ∷ args) = λ d h. h
