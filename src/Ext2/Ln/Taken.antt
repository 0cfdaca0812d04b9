-- ===== src/Ext2/Ln/Taken.antt =====
-- ext2_ln without -s when the name of the link is taken.
use operating_system_unix_li.Base.{
  ℕ, ◌-◌, ◌^◌, ◌<◌, ◌≡◌, ◌≢◌, refl, sym, ap, ◌∙◌, subst, false, some, List, inl, inr, ◌==◌, ltb,
  lt→ltb, if◌then◌else◌, arith, Bool-cases, update, update_ne, ◌&&◌,
}
use operating_system_unix_li.Ext2.Image.{
  Text, Inode, Entry, Image, Out, ok, exited, fault, ◌>>=◌, get_inode, set_inode, increment,
}
use operating_system_unix_li.Ext2.Directory.{is_named}
use operating_system_unix_li.Ext2.Directory.Layout.{IsDir, locate_in}
use operating_system_unix_li.Ext2.Directory.Place.{IsListable, place_of, scan-place}
use operating_system_unix_li.Ext2.Ln.{find_source, check_target, count_link, link}

-- The image with one link more to inode `n`.
abbrev pub linked : Image → ℕ → Image
linked d n = record d {
  inodes =
      update d.inodes n
        (record (d.inodes n) { i_links_count = increment 16 (d.inodes n).i_links_count });
}

-- The status for the entry that has the name already: EISDIR or EEXIST.
abbrev pub taken_status : Entry → ℕ
taken_status e = if e.file_type == 2 then 21 else 17

module _ (d : Image) (dir : ℕ) (ess : List (List Entry)) (name : Text) (addr : ℕ) (e : Entry)
    (is : IsListable d dir ess) (there : place_of d dir ess name ≡ some (addr, e)) where
  source_at :
      (e.file_type == 2) ≡ false
      → (e.inode == 2 ^ 32 - 1) ≡ false
      → find_source dir name d ≡ ok e.inode d
  unfolding find_source
  source_at dirs some' =
      simp (find_source, ◌>>=◌, is.0, scan-place d dir ess name is, there, dirs, some') refl

  target_taken : check_target dir name d ≡ exited (taken_status e) d
  unfolding check_target
  target_taken = elim (Bool-cases (e.file_type == 2)) [
    | inl dirs ↦ simp (check_target, ◌>>=◌, is.0, scan-place d dir ess name is, there, dirs) refl
    | inr dirs ↦ simp (check_target, ◌>>=◌, is.0, scan-place d dir ess name is, there, dirs) refl
  ]

counted_at : (n : ℕ) (d : Image) → 0 < n → n < 33 → count_link false n d ≡ ok tt (linked d n)
unfolding count_link set_inode
counted_at n d low high = simp (lt→ltb 0 n low, lt→ltb n 33 high) refl

not_got : (o : Out Inode) (i : Inode) (d : Image) → o ≡ fault → o ≡ ok i d → ⊥
not_got o i d h k = cc

-- The other inodes stay as they are.
got_linked :
    (d : Image) (n dir : ℕ)
    → dir ≢ n
    → get_inode dir d ≡ ok (d.inodes dir) d
    → get_inode dir (linked d n) ≡ ok ((linked d n).inodes dir) (linked d n)
unfolding get_inode
got_linked d n dir ne got = elim (Bool-cases (ltb 0 dir && ltb dir 33)) [
  | inl h ↦ rw h refl
  | inr h ↦ absurd (not_got (get_inode dir d) (d.inodes dir) d (rw h refl) got)
]

module _ (d : Image) (n dir : ℕ) (ess : List (List Entry)) (ne : dir ≢ n) where
  same_inode : (linked d n).inodes dir ≡ d.inodes dir
  same_inode =
      update_ne d.inodes n
        (record (d.inodes n) { i_links_count = increment 16 (d.inodes n).i_links_count }) dir ne

  linked-IsListable : IsListable d dir ess → IsListable (linked d n) dir ess
  linked-IsListable (got, size, dirs) = (
    got_linked d n dir ne got,
    ap (λ i. i.i_size) same_inode ∙ size,
    subst (λ i. IsDir d.entries i.i_block 0 ess) (sym same_inode) dirs,
  )

  place-linked : (name : Text) → place_of (linked d n) dir ess name ≡ place_of d dir ess name
  place-linked name = ap (λ i. locate_in (is_named name) i.i_block 0 ess) same_inode

module _ (d : Image) (src tar : ℕ) (ess_src ess_tar : List (List Entry))
    (path name_src name_tar : Text) (addr_src addr_tar : ℕ) (e_src e_tar : Entry)
    (is_src : IsListable d src ess_src) (is_tar : IsListable d tar ess_tar)
    (there_src : place_of d src ess_src name_src ≡ some (addr_src, e_src))
    (there_tar : place_of d tar ess_tar name_tar ≡ some (addr_tar, e_tar))
    (file : (e_src.file_type == 2) ≡ false) (low : 0 < e_src.inode) (high : e_src.inode < 33)
    (other : tar ≢ e_src.inode) where
  -- `ln` without -s counts the new link before it looks whether its name is free: if the source is a file
  -- and the name is taken in the directory for it, then `ln` ends with EISDIR or EEXIST, and the
  -- link count of the source has gone up by one all the same; nothing else has changed.
  pub link_taken :
      link false path src name_src tar name_tar d
      ≡ exited (taken_status e_tar) (linked d e_src.inode)
  unfolding link
  link_taken =
      let some' : (e_src.inode == 2 ^ 32 - 1) ≡ false = ground arith in
      simp
        (
          link,
          ◌>>=◌,
          source_at d src ess_src name_src addr_src e_src is_src there_src file some',
          counted_at e_src.inode d low high,
          target_taken (linked d e_src.inode) tar ess_tar name_tar addr_tar e_tar
              (linked-IsListable d e_src.inode tar ess_tar other is_tar)
              (place-linked d e_src.inode tar ess_tar other name_tar ∙ there_tar),
        )
        refl
