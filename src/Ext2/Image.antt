-- ===== src/Ext2/Image.antt =====
-- ext2.h, and what the tools do to the mapped image: its state, and the operations on it.
pub mod Keeps
use operating_system_unix_li.Base.{
  ℕ, zero, suc, ◌+◌, ◌-◌, ◌*◌, ◌/◌, ◌%◌, ◌^◌, Bool, true, false, not, Option, none, some, List, [],
  ◌∷◌, ◌++◌, ◌&&◌, ◌||◌, ◌==◌, ltb, if◌then◌else◌, length, update,
}

abbrev pub Text : Type 0
Text = List ℕ

-- `struct ext2_inode`, as far as the tools use it; `i_block` has 15 elements.
pub record Inode : Type 0 where
  pub i_mode : ℕ
  pub i_size : ℕ
  pub i_dtime : ℕ
  pub i_links_count : ℕ
  pub i_blocks : ℕ
  pub i_block : ℕ → ℕ

-- `struct ext2_dir_entry_2`: `name` holds the bytes from there on.
pub record Entry : Type 0 where
  pub inode : ℕ
  pub rec_len : ℕ
  pub name_len : ℕ
  pub file_type : ℕ
  pub name : Text

-- The mapped image, of 128 KiB, and what the program has printed. A bitmap is the bits of its block; an
-- inode goes by its number; a directory entry, a C string and an `int` go by their address in the
-- image.
pub record Image : Type 0 where
  pub s_free_blocks_count : ℕ
  pub s_free_inodes_count : ℕ
  pub bg_free_blocks_count : ℕ
  pub bg_free_inodes_count : ℕ
  pub inode_bitmap : ℕ → Bool
  pub block_bitmap : ℕ → Bool
  pub inodes : ℕ → Inode
  pub entries : ℕ → Entry
  pub strings : ℕ → Text
  pub ints : ℕ → ℕ
  pub stdout : List Text

abbrev pub block_num : ℕ
block_num = 128

abbrev pub inode_num : ℕ
inode_num = 32

-- EXT2_DIR_REC_LEN, rounded up to a multiple of 4.
unfoldable pub ext2_dir_rec_len : ℕ → ℕ
ext2_dir_rec_len name_len = (name_len + 8 + 3) / 4 * 4

-- What a piece of a program does: it goes on, it ends with a status, or it reads or writes outside an
-- array or never ends.
pub data Out (A : Type 0) : Type 0 where
  ok : A → Image → Out A
  exited : ℕ → Image → Out A
  fault : Out A

abbrev pub Prog : Type 0 → Type 0
Prog A = Image → Out A

infixl 5 ◌>>=◌ ◌>>◌
abbrev pub ◌>>=◌ : {A B : Type 0} → Prog A → (A → Prog B) → Prog B
◌>>=◌ x f d = elim (x d) [ ok a d' ↦ f a d' | exited s d' ↦ exited s d' | fault ↦ fault ]

abbrev pub ◌>>◌ : {B : Type 0} → Prog (Unit {0}) → Prog B → Prog B
x >> y = x >>= λ _. y

abbrev pub ret : {A : Type 0} → A → Prog A
ret a d = ok a d

abbrev pub done : Prog (Unit {0})
done d = ok tt d

-- exit, or return of main.
abbrev pub exit : {A : Type 0} → ℕ → Prog A
exit s d = exited s d

abbrev pub crash : {A : Type 0} → Prog A
crash d = fault

-- An inode in the table, which has 32.
unfoldable pub get_inode : ℕ → Prog Inode
get_inode n d = if ltb 0 n && ltb n 33 then ok (d.inodes n) d else fault

unfoldable pub set_inode : ℕ → (Inode → Inode) → Prog (Unit {0})
set_inode n f d =
    if ltb 0 n && ltb n 33
    then ok tt (record d { inodes = update d.inodes n (f (d.inodes n)) })
    else fault

-- A write to `i_block[k]`.
unfoldable pub set_i_block : ℕ → ℕ → ℕ → Prog (Unit {0})
set_i_block n k b =
    if ltb k 15 then set_inode n (λ i. record i { i_block = update i.i_block k b }) else crash

unfoldable pub set_entry : ℕ → (Entry → Entry) → Prog (Unit {0})
set_entry addr f d =
    if ltb addr (2 ^ 17)
    then ok tt (record d { entries = update d.entries addr (f (d.entries addr)) })
    else fault

unfoldable pub print : Text → Prog (Unit {0})
print line d = ok tt (record d { stdout = d.stdout ++ line ∷ [] })

-- `x -= 1` and `x += 1` on an unsigned number of `w` bits.
abbrev pub decrement : ℕ → ℕ → ℕ
decrement w x = (x + (2 ^ w - 1)) % 2 ^ w

abbrev pub increment : ℕ → ℕ → ℕ
increment w x = (x + 1) % 2 ^ w

-- Equality of texts, as strcmp finds it.
abbrev pub eq_text : Text → Text → Bool
eq_text [] [] = true
eq_text [] (d ∷ ds) = false
eq_text (c ∷ cs) [] = false
eq_text (c ∷ cs) (d ∷ ds) = c == d && eq_text cs ds

-- The bytes up to the first NUL.
abbrev pub c_string : Text → Text
c_string [] = []
c_string (c ∷ cs) = if c == 0 then [] else c ∷ c_string cs

abbrev pub take_bytes : ℕ → Text → Text
take_bytes zero cs = []
take_bytes (suc n) [] = []
take_bytes (suc n) (c ∷ cs) = c ∷ take_bytes n cs

-- `memcpy(file_name, entry->name, entry->name_len)`, with a NUL behind it, as a string.
abbrev pub file_name : Entry → Text
file_name e = c_string (take_bytes e.name_len e.name)

-- What is written to a directory entry; `strcpy` writes the name. The NUL that it writes behind the name
-- is not part of the entry here: with a name that fills its entry to the last byte it goes to the byte
-- behind.
unfoldable pub write_entry : ℕ → ℕ → Text → ℕ → ℕ → Prog (Unit {0})
write_entry addr inode name file_type rec_len = set_entry addr (λ e. record {
  inode = inode;
  rec_len = rec_len % 2 ^ 16;
  name_len = length name % 2 ^ 8;
  file_type = file_type;
  name = name;
})
