-- ===== src/Ext2/Accounts.antt =====
-- The counters of free blocks and inodes through the steps that ext2_mkdir and ext2_ln share.
pub mod Directories
pub mod Links
use operating_system_unix_li.Base.{
  ℕ, ◌+◌, ◌^◌, ◌*◌, ◌-◌, ◌≡◌, refl, Bool, true, false, Option, none, some, List, [], ◌∷◌, inl, inr,
  if◌then◌else◌, not, ltb, ◌==◌, ◌/◌, ◌%◌, length,
}
use operating_system_unix_li.Ext2.Image.{
  Text, Inode, Entry, Image, Out, ok, exited, fault, Prog, ◌>>=◌, ◌>>◌, ret, done, exit, crash,
  eq_text, get_inode, set_inode, set_i_block, set_entry, write_entry, print, ext2_dir_rec_len,
}
use operating_system_unix_li.Ext2.Image.Keeps.{
  Holds, Keeps, bind-Keeps, option-Keeps, if-Keeps, get_inode-Keeps, set_inode-Keeps,
  set_i_block-Keeps, set_entry-Keeps, write_entry-Keeps,
}
use operating_system_unix_li.Ext2.Alloc.{take_inode, take_block}
use operating_system_unix_li.Ext2.Alloc.First.{take_block-IsFirst, take_inode-IsFirst}
use operating_system_unix_li.Ext2.Alloc.Counted.{IsCounted, block-IsCounted, inode-IsCounted}
use operating_system_unix_li.Ext2.Path.{slash, strip_slash, parent_and_name}
use operating_system_unix_li.Ext2.Directory.Kept.{find_inode-Keeps}
use operating_system_unix_li.Ext2.Ls.{is_absolute}
use operating_system_unix_li.Ext2.Mkdir
use operating_system_unix_li.Ext2.Mkdir.{
  init_dir_inode, write_dots, make_dir, mkdir_path, mkdir_main,
}
use operating_system_unix_li.Ext2.Insert.{
  Slot, place, no_place, off, find_place_of, append_entry, extend_dir, add_entry,
}

pub take_block-Keeps : Keeps IsCounted take_block
take_block-Keeps d h = elim (take_block-IsFirst d) [
  | inl (all, e) ↦ rw e h
  | inr (i, is, e) ↦ rw e (block-IsCounted d i h is)
]

pub take_inode-Keeps : Keeps IsCounted take_inode
take_inode-Keeps d h = elim (take_inode-IsFirst d) [
  | inl (all, e) ↦ rw e h
  | inr (i, is, e) ↦ rw e (inode-IsCounted d i h is)
]

pub inode-Keeps : (n : ℕ) (f : Inode → Inode) → Keeps IsCounted (set_inode n f)
inode-Keeps = set_inode-Keeps IsCounted (λ d f h. h) (λ d f h. h)

pub i_block-Keeps : (n k b : ℕ) → Keeps IsCounted (set_i_block n k b)
i_block-Keeps = set_i_block-Keeps IsCounted (λ d f h. h) (λ d f h. h)

pub entry-Keeps : (addr : ℕ) (f : Entry → Entry) → Keeps IsCounted (set_entry addr f)
entry-Keeps = set_entry-Keeps IsCounted (λ d f h. h) (λ d f h. h)

pub write-Keeps :
    (addr inode : ℕ) (name : Text) (file_type rec_len : ℕ)
    → Keeps IsCounted (write_entry addr inode name file_type rec_len)
write-Keeps = write_entry-Keeps IsCounted (λ d f h. h) (λ d f h. h)

pub append-Keeps :
    (addr : ℕ) (e : Entry) (inode : ℕ) (name : Text) (file_type : ℕ)
    → Keeps IsCounted (append_entry addr e inode name file_type)
unfolding append_entry
append-Keeps addr e inode name file_type = bind-Keeps IsCounted _ _ (entry-Keeps addr _) (λ _.
    write-Keeps (addr + ext2_dir_rec_len e.name_len) inode name file_type
      (e.rec_len - ext2_dir_rec_len e.name_len))

pub extend-Keeps :
    (stale : Option ℕ) (parent n inode : ℕ) (name : Text) (file_type : ℕ)
    → Keeps IsCounted (extend_dir stale parent n inode name file_type)
unfolding extend_dir
extend-Keeps stale parent n inode name file_type =
    bind-Keeps IsCounted take_block _ take_block-Keeps (λ fresh.
      bind-Keeps IsCounted _ _
        (option-Keeps IsCounted fresh done (set_i_block parent n) (λ d h. h)
          (i_block-Keeps parent n))
        (λ _. bind-Keeps IsCounted (get_inode parent) _ (get_inode-Keeps IsCounted parent) (λ i.
          if-Keeps IsCounted (i.i_block n == 2 ^ 32 - 1) (exit 1) _ (λ d h. h)
            (option-Keeps IsCounted (elim fresh [ none ↦ stale | some b ↦ some b ]) crash _
              (λ d h. tt)
              (λ b.
                bind-Keeps IsCounted _ _ (write-Keeps (1024 * b) inode name file_type 1024)
                  (λ _. inode-Keeps parent _))))))

pub slot-Keeps :
    (stale : Option ℕ) (parent n inode : ℕ) (name : Text) (file_type : ℕ) (slot : Slot)
    → Keeps IsCounted (elim slot [
      | place addr e ↦ append_entry addr e inode name file_type
      | no_place ↦ extend_dir stale parent n inode name file_type
      | off ↦ crash
    ])
slot-Keeps stale parent n inode name file_type (place addr e) =
    append-Keeps addr e inode name file_type
slot-Keeps stale parent n inode name file_type no_place =
    extend-Keeps stale parent n inode name file_type
slot-Keeps stale parent n inode name file_type off = λ d h. tt

pub add-Keeps :
    (stale : Option ℕ) (parent inode : ℕ) (name : Text) (file_type : ℕ)
    → Keeps IsCounted (add_entry stale parent inode name file_type)
unfolding add_entry
add-Keeps stale parent inode name file_type =
    bind-Keeps IsCounted (get_inode parent) _ (get_inode-Keeps IsCounted parent) (λ i.
      bind-Keeps IsCounted (find_place_of (ext2_dir_rec_len (length name)) i (i.i_size / 1024)) _
        (λ d h. h) (slot-Keeps stale parent (i.i_size / 1024) inode name file_type))
