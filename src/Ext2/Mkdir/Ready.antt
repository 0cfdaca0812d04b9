-- ===== src/Ext2/Mkdir/Ready.antt =====
-- ext2_mkdir.c: `make_dir` with all that it needs, and without a free inode.
use operating_system_unix_li.Base.{
  ℕ, ◌+◌, ◌*◌, ◌^◌, ◌<◌, ◌≤◌, ◌≡◌, ◌≢◌, refl, sym, ap, ◌∙◌, subst, none, some, List, inl, inr, ◌&&◌,
  ltb, length, arith, Bool-cases, update, update_same, update_ne,
}
use operating_system_unix_li.Ext2.Image.{
  Text, Entry, Image, Out, ok, exited, fault, ◌>>=◌, get_inode, increment, ext2_dir_rec_len,
  c_string,
}
use operating_system_unix_li.Ext2.Alloc.First.{AllSet, IsFirst, with_inode, take_inode-IsFirst}
use operating_system_unix_li.Ext2.Directory.{is_named}
use operating_system_unix_li.Ext2.Directory.Layout.{IsDir, locate_in}
use operating_system_unix_li.Ext2.Directory.Place.{IsListable, place_of}
use operating_system_unix_li.Ext2.Insert.{place}
use operating_system_unix_li.Ext2.Insert.Places.{slot_in}
use operating_system_unix_li.Ext2.Insert.Grown.{added, with_entry}
use operating_system_unix_li.Ext2.Insert.Blocks.{same-IsDir}
use operating_system_unix_li.Ext2.Insert.Found.{added_lem}
use operating_system_unix_li.Ext2.Mkdir.Made.{
  first_inode, fresh_dir, with_dir, dot, dot_dot, with_link, prepared, init_at, dots_at, link_at,
}
use operating_system_unix_li.Ext2.Mkdir.{make_dir}

-- The image after `mkdir` has made the directory `name` in the directory `parent`: bit `i` of the inodes
-- and bit `b` of the blocks are taken, the inode and `.` and `..` are written, the last entry `e` of a
-- block, at address `a`, is cut, the new entry stands behind it, and the parent has one link more.
abbrev pub made : Image → ℕ → ℕ → ℕ → Text → ℕ → Entry → Image
made d parent i b name a e =
    with_link (with_entry (prepared d parent i b) a e (i + 1) name 2) parent

-- What `mkdir` needs to make the directory: a parent whose entries fill its blocks, which have different
-- numbers, and in which the name is missing; a block of it with room for the entry, behind the entry `e`
-- at `a`; and the first free inode and block, which belong to no one else.
pub record IsReady (d : Image) (parent i b : ℕ) (ess : List (List Entry)) (name : Text) (a : ℕ)
    (e : Entry) : Type 0 where
  pub inode : IsFirst d.inode_bitmap 0 32 i
  pub block : IsFirst d.block_bitmap 0 128 b
  pub inside : b < 127
  pub other : parent ≢ i + 1
  pub listable : IsListable d parent ess
  pub apart :
      (j k : ℕ)
      → j < length ess
      → k < length ess
      → j ≢ k
      → (d.inodes parent).i_block j ≢ (d.inodes parent).i_block k
  pub unused : (k : ℕ) → k < length ess → (d.inodes parent).i_block k ≢ b + 1
  pub slot : slot_in (ext2_dir_rec_len (length name)) (d.inodes parent).i_block 0 ess ≡ place a e
  pub missing : place_of d parent ess name ≡ none
  pub short : length name < 256
  pub plain : c_string name ≡ name
  pub ends_inside : ext2_dir_rec_len e.name_len + (8 + length name + 1) ≤ e.rec_len

not_got : {A : Type 0} (o : Out A) (i : A) (d : Image) → o ≡ fault → o ≡ ok i d → ⊥
not_got o i d h k = cc

-- A number of the inode table is one in every image.
got_any :
    (d d' : Image) (n : ℕ)
    → get_inode n d ≡ ok (d.inodes n) d
    → (get_inode n d' ≡ ok (d'.inodes n) d') × (0 < n) × (n < 33)
unfolding get_inode
got_any d d' n got = elim (Bool-cases (ltb 0 n && ltb n 33)) [
  | inl h ↦ (rw h refl, ground arith, ground arith)
  | inr h ↦ absurd (not_got (get_inode n d) (d.inodes n) d (rw h refl) got)
]

module _ (d : Image) (parent i b : ℕ) (ess : List (List Entry)) (name : Text) (a : ℕ) (e : Entry)
    (is : IsReady d parent i b ess name a e) where
  same_parent : (prepared d parent i b).inodes parent ≡ d.inodes parent
  same_parent = update_ne d.inodes (i + 1) (fresh_dir (d.inodes (i + 1)) b) parent is.other

  prepared-IsListable : IsListable (prepared d parent i b) parent ess
  prepared-IsListable =
      let addr : ℕ = 1024 * (b + 1) in
      let blocks = (d.inodes parent).i_block in
      let entries' = (prepared d parent i b).entries in
      (
        (got_any d (prepared d parent i b) parent is.listable.0).0,
        ap (λ n. n.i_size) same_parent ∙ is.listable.1,
        subst (λ n. IsDir entries' n.i_block 0 ess) (sym same_parent)
            (same-IsDir d.entries blocks entries' ess 0 (b + 1)
              (λ x out. elim out [
                | inl h ↦
                    update_ne (update d.entries addr (dot (i + 1))) (addr + 12) (dot_dot parent) x
                      (omega arith)
                    ∙ update_ne d.entries addr (dot (i + 1)) x (omega arith)
                | inr h ↦
                    update_ne (update d.entries addr (dot (i + 1))) (addr + 12) (dot_dot parent) x
                      (omega arith)
                    ∙ update_ne d.entries addr (dot (i + 1)) x (omega arith)
              ])
              (λ k h. subst (λ m. blocks m ≢ b + 1) (omega arith) (is.unused k h)) is.listable.2),
      )

  -- `make_dir` ends with 0 and leaves `made`, in which the search for the name finds the new entry.
  pub make_dir_lem :
      (make_dir parent name d ≡ exited 0 (made d parent i b name a e))
      × ((ess' : List (List Entry)) × IsListable (made d parent i b name a e) parent ess'
          × (place_of (made d parent i b name a e) parent ess' name
              ≡ some (a + ext2_dir_rec_len e.name_len, added e (i + 1) name 2)))
  unfolding make_dir
  make_dir_lem =
      let n : ℕ = i + 1 in
      let d1 : Image = with_inode d i in
      let d2 : Image = with_dir d1 n b in
      let d3 : Image = prepared d parent i b in
      let d4 : Image = with_entry d3 a e n name 2 in
      let (got, low, high) = got_any d d parent is.listable.0 in
      let first : n < 33 = omega (arith, is.inode.1) in
      let block : 1024 * (d2.inodes n).i_block 0 ≡ 1024 * (b + 1) =
        ap (λ k. 1024 * k.i_block 0) (update_same d.inodes n (fresh_dir (d.inodes n) b))
        ∙ ap (λ x. 1024 * x) (update_same (d.inodes n).i_block 0 (b + 1)) in
      let mapped : 1024 * (b + 1) + 12 < 2 ^ 17 = omega (arith, is.inside) in
      let (ess', entered, listable, there) =
        added_lem d3 parent ess name n 2 a e none prepared-IsListable
          (ap (λ k. slot_in (ext2_dir_rec_len (length name)) k.i_block 0 ess) same_parent ∙ is.slot)
          (ap (λ k. locate_in (is_named name) k.i_block 0 ess) same_parent ∙ is.missing) is.short
          is.plain
          (subst
            (λ k. (j l : ℕ) → j < length ess → l < length ess → j ≢ l → k.i_block j ≢ k.i_block l)
            (sym same_parent) is.apart) in
      let linked = update_same d4.inodes parent (record (d4.inodes parent) {
        i_links_count = increment 16 (d4.inodes parent).i_links_count;
      }) in
      (
        simp
            (
              make_dir,
              ◌>>=◌,
              first_inode d i is.inode,
              init_at d1 n (omega arith) first b is.block,
              dots_at d2 n (omega arith) first parent (1024 * (b + 1)) block mapped,
              entered,
              link_at d4 parent low high,
            )
            refl,
        (
          ess',
          (
            (got_any d4 (with_link d4 parent) parent listable.0).0,
            ap (λ k. k.i_size) linked ∙ listable.1,
            subst (λ k. IsDir d4.entries k.i_block 0 ess') (sym linked) listable.2,
          ),
          ap (λ k. locate_in (is_named name) k.i_block 0 ess') linked ∙ there,
        ),
      )

-- Without a free inode nothing is made.
pub make_dir_full :
    (d : Image) (parent : ℕ) (name : Text)
    → AllSet d.inode_bitmap 0 32
    → make_dir parent name d ≡ exited 1 d
unfolding make_dir
make_dir_full d parent name all = elim (take_inode-IsFirst d) [
  | inl (set_all, h) ↦ simp (make_dir, ◌>>=◌, h) refl
  | inr (i, first, h) ↦ absurd (cc (sym (all i (omega arith) first.1) ∙ first.2))
]
