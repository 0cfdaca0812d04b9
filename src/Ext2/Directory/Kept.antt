-- ===== src/Ext2/Directory/Kept.antt =====
-- What find_dir_inode keeps true of the image.
use operating_system_unix_li.Base.{
  ℕ, zero, suc, ◌+◌, ◌-◌, ◌^◌, Option, none, some, [], ◌∷◌, ◌==◌, length, if◌then◌else◌,
}
use operating_system_unix_li.Ext2.Image.{Text, Inode, Image, Prog, ret, crash, get_inode}
use operating_system_unix_li.Ext2.Image.Keeps.{
  Keeps, bind-Keeps, option-Keeps, if-Holds, get_inode-Keeps,
}
use operating_system_unix_li.Ext2.Path.{find_next_dir}
use operating_system_unix_li.Ext2.Directory.{
  Found, found, absent, lost, scan_dir, is_named, is_file, look_in, walk, find_inode,
}

module _ (P : Image → Type 0) (on_file : Text → Prog (Option ℕ)) (on_missing : Prog (Option ℕ))
    (at_file : (name : Text) → Keeps P (on_file name)) (at_missing : Keeps P on_missing) where
  found-Keeps :
      (name : Text) (place : Found)
      → Keeps P (λ d. elim place [
        | found addr e ↦
            if is_file e
            then on_file name d
            else (if e.inode == 2 ^ 32 - 1 then on_missing d else ret (some e.inode) d)
        | absent k ↦ on_missing d
        | lost ↦ crash d
      ])
  found-Keeps name (found addr e) = λ d h.
      if-Holds P (is_file e) (on_file name d)
        (if e.inode == 2 ^ 32 - 1 then on_missing d else ret (some e.inode) d) (at_file name d h)
        (if-Holds P (e.inode == 2 ^ 32 - 1) (on_missing d) (ret (some e.inode) d) (at_missing d h)
          h)
  found-Keeps name (absent k) = at_missing
  found-Keeps name lost = λ d h. tt

  look_in-Keeps : (inode : Inode) (name : Text) → Keeps P (look_in on_file on_missing inode name)
  unfolding look_in
  look_in-Keeps inode name d =
      found-Keeps name (scan_dir (is_named name) (λ k. inode.i_block 0 + k) inode.i_size d.entries)
        d

  walk-Keeps : (rounds : ℕ) (path : Text) (n : ℕ) → Keeps P (walk on_file on_missing rounds path n)
  unfolding walk
  walk-Keeps rounds [] n = λ d h. h
  walk-Keeps zero (c ∷ cs) n = λ d h. tt
  walk-Keeps (suc rounds) (c ∷ cs) n =
      option-Keeps P (find_next_dir (c ∷ cs)) crash _ (λ d h. tt)
        (λ split. bind-Keeps P (get_inode n) _ (get_inode-Keeps P n) (λ inode.
          bind-Keeps P (look_in on_file on_missing inode split.0) _ (look_in-Keeps inode split.0)
            (λ next.
              option-Keeps P next (ret none) _ (λ d h. h) (λ m. walk-Keeps rounds split.1 m))))

  pub find_inode-Keeps : (path : Text) → Keeps P (find_inode on_file on_missing path)
  unfolding find_inode
  find_inode-Keeps path = walk-Keeps (length path) path 2
