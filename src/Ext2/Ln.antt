-- ===== src/Ext2/Ln.antt =====
-- ext2_ln.c.
pub mod Taken
use operating_system_unix_li.Base.{
  ℕ, ◌+◌, ◌-◌, ◌*◌, ◌^◌, Bool, true, false, not, Option, none, some, List, [], ◌∷◌, ◌&&◌, ◌||◌,
  ◌==◌, ltb, if◌then◌else◌, length, update,
}
use operating_system_unix_li.Ext2.Image.{
  Text, Inode, Entry, Image, Prog, ok, ◌>>=◌, ◌>>◌, ret, done, exit, crash, get_inode, set_inode,
  set_i_block, eq_text, increment,
}
use operating_system_unix_li.Ext2.Path.{slash, strip_slash, parent_and_name}
use operating_system_unix_li.Ext2.Directory.{
  Found, found, absent, lost, scan_dir, is_named, find_inode,
}
use operating_system_unix_li.Ext2.Alloc.{take_inode, take_block}
use operating_system_unix_li.Ext2.Insert.{add_entry}
use operating_system_unix_li.Ext2.Ls.{bytes, is_absolute}

unfoldable pub find_dir_inode : Text → Prog (Option ℕ)
find_dir_inode path = find_inode (λ name. exit 1) (ret none) path

unfoldable pub find_parent : Text → Prog (Option ℕ)
find_parent path = if eq_text path (slash ∷ []) then ret (some 2) else find_dir_inode path

abbrev pub find_entry : Inode → Text → Prog Found
find_entry inode name d = ret (scan_dir (is_named name) inode.i_block inode.i_size d.entries) d

-- The inode of the source file; a directory is refused, and the number -1 is taken for none.
unfoldable pub find_source : ℕ → Text → Prog ℕ
find_source dir name = do
  inode ← get_inode dir
  place ← find_entry inode name
  elim place [
    | lost ↦ crash
    | absent k ↦ exit 2
    | found addr e ↦
        if e.file_type == 2
        then exit 21
        else (if e.inode == 2 ^ 32 - 1 then exit 2 else ret e.inode)
  ]

-- The target's name may not be taken; the result is the block that was last looked up.
unfoldable pub check_target : ℕ → Text → Prog ℕ
check_target dir name = do
  inode ← get_inode dir
  place ← find_entry inode name
  elim place [
    | lost ↦ crash
    | absent k ↦ ret (inode.i_block k)
    | found addr e ↦ if e.file_type == 2 then exit 21 else exit 17
  ]

unfoldable pub store_string : ℕ → Text → Prog (Unit {0})
store_string addr text d =
    if ltb addr (2 ^ 17) then ok tt (record d { strings = update d.strings addr text }) else crash d

-- The inode of a symbolic link: its size is that of the buffer for the path, 256.
unfoldable pub make_symlink : Text → Prog ℕ
make_symlink path = do
  fresh ← take_inode
  elim fresh [
    | none ↦ exit 1
    | some n ↦ do
      set_inode n (λ i. record i {
        i_mode = 40960;
        i_size = 256;
        i_links_count = 1;
        i_blocks = 2;
        i_dtime = 0;
      })
      block ← take_block
      elim block [ none ↦ done | some b ↦ set_i_block n 0 b ]
      i ← get_inode n
      store_string (1024 * i.i_block 0) path
      ret n
  ]

-- The link count of the source goes up before the target is looked at.
unfoldable pub count_link : Bool → ℕ → Prog (Unit {0})
count_link sflag n =
    if sflag
    then done
    else set_inode n (λ i. record i { i_links_count = increment 16 i.i_links_count })

unfoldable pub link : Bool → Text → ℕ → Text → ℕ → Text → Prog (Unit {0})
link sflag path_src dir_src name_src dir_tar name_tar = do
  source ← find_source dir_src name_src
  count_link sflag source
  stale ← check_target dir_tar name_tar
  n ← if sflag then make_symlink path_src else ret source
  add_entry (some stale) dir_tar n name_tar (if sflag then 7 else 1)
  exit 0

-- The two parents, the target's first.
unfoldable pub link_paths : Bool → Text → Text → Prog (Unit {0})
link_paths sflag path_src path_tar = elim (parent_and_name path_tar) [
  | none ↦ crash
  | some (parent_tar, name_tar) ↦ elim (parent_and_name path_src) [
    | none ↦ crash
    | some (parent_src, name_src) ↦ find_parent parent_tar >>= λ tar. elim tar [
      | none ↦ exit 2
      | some dir_tar ↦ find_parent parent_src >>= λ src. elim src [
        | none ↦ exit 2
        | some dir_src ↦ link sflag path_src dir_src name_src dir_tar name_tar
      ]
    ]
  ]
]

-- The last two arguments, as `main` takes them.
abbrev pub last_two : Text → Text → List Text → Text × Text
last_two a b [] = (a, b)
last_two a b (c ∷ args) = last_two b c args

-- -s is given as argv[2] of five.
abbrev pub s_flag : List Text → Bool
s_flag (image ∷ opt ∷ src ∷ tar ∷ []) = eq_text opt (bytes "-s")
s_flag args = false

abbrev pub is_root : Text → Bool
is_root path = eq_text path (slash ∷ [])

unfoldable pub ln_paths : Bool → Bool → Text → Text → Prog (Unit {0})
ln_paths mapped sflag src tar =
    if not (is_absolute tar) || not (is_absolute src)
    then exit 1
    else (if is_root tar || is_root src
        then exit 1
        else (if not mapped
            then exit 1
            else (if ltb 255 (length tar) || ltb 255 (length src)
                then crash
                else link_paths sflag (strip_slash src) (strip_slash tar))))

unfoldable pub ln_main : Bool → List Text → Prog (Unit {0})
ln_main mapped [] = exit 1
ln_main mapped (a ∷ []) = exit 1
ln_main mapped (a ∷ b ∷ []) = exit 1
ln_main mapped (a ∷ b ∷ c ∷ args) =
    let paths : Text × Text = last_two b c args in
    ln_paths mapped (s_flag (a ∷ b ∷ c ∷ args)) paths.0 paths.1
