-- ===== src/Ext2/Ls.antt =====
-- ext2_ls.c.
pub mod Listing
use Prim.Native.Char.{code}
use Prim.Native.String
use Prim.Native.String.{String}
use operating_system_unix_li.Base.{
  ℕ, zero, suc, ◌+◌, ◌*◌, ◌%◌, ◌^◌, Bool, true, false, not, Option, none, some, List, [], ◌∷◌, ◌&&◌,
  ◌||◌, ◌==◌, ltb, if◌then◌else◌, length,
}
use operating_system_unix_li.Ext2.Image.{
  Text, Inode, Entry, Image, Prog, ◌>>=◌, ◌>>◌, ret, done, exit, crash, get_inode, eq_text,
  file_name, print,
}
use operating_system_unix_li.Ext2.Path.{slash, strip_slash}
use operating_system_unix_li.Ext2.Directory.{find_inode}

-- The bytes of a message.
abbrev pub bytes : String → Text
bytes String.[] = []
bytes (String.◌∷◌ c s) = code c ∷ bytes s

-- A file on the way is printed, and the program ends with 0.
unfoldable pub find_dir_inode : Text → Prog (Option ℕ)
find_dir_inode path =
    find_inode (λ name. print name >> exit 0)
      (print (bytes "No such file or directory") >> ret none) path

-- Whether an entry is printed: not if its name is empty, and `.` and `..` only with -a.
abbrev pub is_shown : Bool → Entry → Bool
is_shown aflag e =
    not (eq_text (file_name e) [])
    && (aflag || not (eq_text (file_name e) (bytes ".") || eq_text (file_name e) (bytes "..")))

-- The loop over the entries, with the rounds that are left.
unfoldable pub list_entries : Bool → (ℕ → ℕ) → ℕ → ℕ → ℕ → ℕ → ℕ → Prog (Unit {0})
list_entries aflag blocks total zero i addr size d = if ltb size total then crash d else done d
list_entries aflag blocks total (suc rounds) i addr size d =
    let e : Entry = d.entries addr in
    let size' = size + e.rec_len in
    let over = size' % 1024 == 0 in
    let rest : Prog (Unit {0}) =
      list_entries aflag blocks total rounds (if over then i + 1 else i)
        (if over then 1024 * blocks (i + 1) else addr + e.rec_len) size' in
    if ltb size total
    then (if ltb addr (2 ^ 17)
        then (if is_shown aflag e then print (file_name e) >> rest else rest) d
        else crash d)
    else done d

unfoldable pub list_dir : Bool → ℕ → Prog (Unit {0})
list_dir aflag dir_inode = do
  inode ← get_inode dir_inode
  list_entries aflag inode.i_block inode.i_size inode.i_size 0 (1024 * inode.i_block 0) 0

-- The absolute path is looked up, except for the root.
unfoldable pub ls_path : Bool → Text → Prog (Unit {0})
ls_path aflag path =
    let at : Prog (Option ℕ) =
      if eq_text path (slash ∷ []) then ret (some 2) else find_dir_inode (strip_slash path) in
    if ltb 255 (length path)
    then crash
    else (do dir ← at; elim dir [ none ↦ exit 2 | some n ↦ list_dir aflag n >> exit 0 ])

abbrev pub last_arg : Text → List Text → Text
last_arg a [] = a
last_arg a (b ∷ args) = last_arg b args

abbrev pub is_absolute : Text → Bool
is_absolute [] = false
is_absolute (c ∷ cs) = c == slash

-- -a is given as argv[2] of four.
abbrev pub a_flag : List Text → Bool
a_flag (image ∷ opt ∷ path ∷ []) = eq_text opt (bytes "-a")
a_flag args = false

-- `main` on argv[1] and what follows; `mapped` says whether mmap gives the image.
unfoldable pub ls_main : Bool → List Text → Prog (Unit {0})
ls_main mapped [] = exit 1
ls_main mapped (a ∷ args) =
    if not (is_absolute (last_arg a args))
    then exit 1
    else (if mapped then ls_path (a_flag (a ∷ args)) (last_arg a args) else exit 1)
