-- ===== src/Ext2/Rm/Outcome.antt =====
-- ext2_rm against the entries of the directory: what is refused, and what goes.
use operating_system_unix_li.Base.{
  ℕ, ◌-◌, ◌^◌, ◌<◌, ◌≡◌, ◌≢◌, refl, ap, ◌∙◌, true, false, Option, none, some, List, [], inl, inr,
  ◌==◌, lt→ltb, if◌then◌else◌, arith, update, update_same, ne→==, Bool-cases,
}
use operating_system_unix_li.Ext2.Image.{
  Text, Inode, Entry, Image, ok, exited, ◌>>=◌, ◌>>◌, done, exit, get_inode, set_inode, set_entry,
  decrement,
}
use operating_system_unix_li.Ext2.Directory.{is_named}
use operating_system_unix_li.Ext2.Directory.Place.{IsListable, place_of, scan-place, locate_in-IsAt}
use operating_system_unix_li.Ext2.Rm.{unlink, erase_entry, release, remove}

-- The status with which `rm` refuses what it finds for the name, if it does.
abbrev pub refusal : Option (ℕ × Entry) → Option ℕ
refusal none = some 2
refusal (some (addr, e)) =
    if e.file_type == 2 then some 21 else (if e.inode == 2 ^ 32 - 1 then some 2 else none)

-- The entry without its name, and the inode with one link less.
abbrev pub erased : Entry → Entry
erased e = record e { inode = 0; name_len = 0; file_type = 0; name = [] }

abbrev pub without : Image → ℕ → ℕ → Image
without d addr n = record d {
  entries = update d.entries addr (erased (d.entries addr));
  inodes =
      update d.inodes n
        (record (d.inodes n) { i_links_count = decrement 16 (d.inodes n).i_links_count });
}

none-some : (s : ℕ) (o : Option ℕ) → o ≡ none → o ≡ some s → ⊥
none-some s o h k = cc

module _ (d : Image) (dir : ℕ) (ess : List (List Entry)) (name : Text)
    (is : IsListable d dir ess) where
  not_found : place_of d dir ess name ≡ none → remove dir name d ≡ exited 2 d
  unfolding remove
  not_found h = simp (remove, ◌>>=◌, is.0, scan-place d dir ess name is, h) refl

  not_a_file :
      (addr : ℕ) (e : Entry)
      → place_of d dir ess name ≡ some (addr, e)
      → (e.file_type == 2) ≡ true
      → remove dir name d ≡ exited 21 d
  unfolding remove
  not_a_file addr e h dirs = simp (remove, ◌>>=◌, is.0, scan-place d dir ess name is, h, dirs) refl

  goes_at :
      (addr : ℕ) (e : Entry)
      → place_of d dir ess name ≡ some (addr, e)
      → (e.file_type == 2) ≡ false
      → (e.inode == 2 ^ 32 - 1) ≡ false
      → remove dir name d ≡ (erase_entry addr >> unlink e.inode >> exit 0) d
  unfolding remove
  goes_at addr e h dirs none' =
      simp (remove, ◌>>=◌, is.0, scan-place d dir ess name is, h, dirs, none') refl

  no_inode_at :
      (addr : ℕ) (e : Entry)
      → place_of d dir ess name ≡ some (addr, e)
      → (e.file_type == 2) ≡ false
      → (e.inode == 2 ^ 32 - 1) ≡ true
      → remove dir name d ≡ exited 2 d
  unfolding remove
  no_inode_at addr e h dirs none' =
      simp (remove, ◌>>=◌, is.0, scan-place d dir ess name is, h, dirs, none') refl

  same_status :
      (t s : ℕ) (o : Option ℕ)
      → o ≡ some t
      → o ≡ some s
      → remove dir name d ≡ exited t d
      → remove dir name d ≡ exited s d
  same_status t s o is_t is_s h = let same : t ≡ s = cc in h ∙ ap (λ u. exited u d) same

  remove_as :
      (s : ℕ) (place : Option (ℕ × Entry))
      → place_of d dir ess name ≡ place
      → refusal place ≡ some s
      → remove dir name d ≡ exited s d
  remove_as s none at h = same_status 2 s (refusal none) refl h (not_found at)
  remove_as s (some (addr, e)) at h = elim (Bool-cases (e.file_type == 2)) [
    | inl dirs ↦
        same_status 21 s (refusal (some (addr, e))) (rw (refusal, dirs) refl) h
          (not_a_file addr e at dirs)
    | inr dirs ↦ elim (Bool-cases (e.inode == 2 ^ 32 - 1)) [
      | inl none' ↦
          same_status 2 s (refusal (some (addr, e))) (rw (refusal, dirs, none') refl) h
            (no_inode_at addr e at dirs none')
      | inr some' ↦
          let goes : refusal (some (addr, e)) ≡ none = rw (refusal, dirs, some') refl in
          absurd (none-some s (refusal (some (addr, e))) goes h)
    ]
  ]

  -- `rm` refuses a name that is not in the directory with ENOENT, one of a directory with EISDIR, and
  -- an entry of another kind with the inode number 2^32 - 1, which is -1 as an int, with ENOENT, and
  -- then it changes nothing.
  pub remove-refusal :
      (s : ℕ) → refusal (place_of d dir ess name) ≡ some s → remove dir name d ≡ exited s d
  remove-refusal s h = remove_as s (place_of d dir ess name) refl h

erase_at :
    (addr : ℕ) (d : Image)
    → addr < 2 ^ 17
    → erase_entry addr d
      ≡ ok tt (record d { entries = update d.entries addr (erased (d.entries addr)) })
unfolding erase_entry set_entry
erase_at addr d h = simp (lt→ltb addr (2 ^ 17) h) refl

module _ (n : ℕ) (d : Image) (low : 0 < n) (high : n < 33) where
  got_inode : get_inode n d ≡ ok (d.inodes n) d
  unfolding get_inode
  got_inode = simp (lt→ltb 0 n low, lt→ltb n 33 high) refl

  set_at :
      (f : Inode → Inode)
      → set_inode n f d ≡ ok tt (record d { inodes = update d.inodes n (f (d.inodes n)) })
  unfolding set_inode
  set_at f = simp (lt→ltb 0 n low, lt→ltb n 33 high) refl

-- The inode with one link less.
abbrev pub fewer_links : ℕ → Image → Inode
fewer_links n d = record (d.inodes n) { i_links_count = decrement 16 (d.inodes n).i_links_count }

abbrev pub unlinked : ℕ → Image → Image
unlinked n d = record d { inodes = update d.inodes n (fewer_links n d) }

pub unlink_at :
    (n : ℕ) (d : Image)
    → 0 < n
    → n < 33
    → unlink n d
      ≡ (if (fewer_links n d).i_links_count == 0 then release n (fewer_links n d) else done)
          (unlinked n d)
unfolding unlink
unlink_at n d low high =
    simp
      (
        unlink,
        ◌>>=◌,
        set_at n d low high,
        got_inode n (unlinked n d) low high,
        update_same d.inodes n (fewer_links n d),
      )
      refl

-- What is not refused.
not_refused :
    (addr : ℕ) (e : Entry)
    → refusal (some (addr, e)) ≡ none
    → ((e.file_type == 2) ≡ false) × ((e.inode == 2 ^ 32 - 1) ≡ false)
not_refused addr e h = elim (Bool-cases (e.file_type == 2)) [
  | inl dirs ↦ absurd (none-some 21 (refusal (some (addr, e))) h (rw (refusal, dirs) refl))
  | inr dirs ↦ elim (Bool-cases (e.inode == 2 ^ 32 - 1)) [
    | inl none' ↦ absurd (none-some 2 (refusal (some (addr, e))) h (rw (refusal, dirs, none') refl))
    | inr some' ↦ (dirs, some')
  ]
]

module _ (d : Image) (dir : ℕ) (ess : List (List Entry)) (name : Text) (addr : ℕ) (e : Entry)
    (is : IsListable d dir ess) (there : place_of d dir ess name ≡ some (addr, e))
    (free : refusal (some (addr, e)) ≡ none) (low : 0 < e.inode) (high : e.inode < 33) where
  abbrev pub gone : Image
  gone = record d { entries = update d.entries addr (erased (d.entries addr)) }

  pub remove_at : remove dir name d ≡ (unlink e.inode >> exit 0) gone
  remove_at =
      let (mapped, same, hits) =
        locate_in-IsAt (is_named name) d.entries ess (d.inodes dir).i_block 0 addr e is.2 there in
      let (dirs, some') = not_refused addr e free in
      goes_at d dir ess name is addr e there dirs some' ∙ simp (◌>>=◌, erase_at addr d mapped) refl

  -- If the file has other links then `rm` erases the entry, keeping the space it takes, lowers the link
  -- count by one, and ends with 0; it changes nothing else.
  pub remove-without :
      1 < (d.inodes e.inode).i_links_count
      → (d.inodes e.inode).i_links_count < 2 ^ 16
      → remove dir name d ≡ exited 0 (without d addr e.inode)
  remove-without more small =
      let left : decrement 16 (d.inodes e.inode).i_links_count ≢ 0 = omega arith in
      let not_last = ne→== (decrement 16 (d.inodes e.inode).i_links_count) 0 left in
      remove_at ∙ simp (◌>>=◌, unlink_at e.inode gone low high, not_last) refl
