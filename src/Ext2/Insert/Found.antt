-- ===== src/Ext2/Insert/Found.antt =====
-- An entry that is added to a directory is found there.
use operating_system_unix_li.Base.{
  ℕ, zero, suc, ◌+◌, ◌*◌, ◌/◌, ◌%◌, ◌^◌, ◌<◌, ◌≡◌, ◌≢◌, refl, sym, ap, ◌∙◌, subst, true, false,
  Option, none, some, List, [], ◌∷◌, inl, inr, ==_refl, ◌&&◌, ltb, length, length-set, get_elem?,
  set, arith, Bool-cases,
}
use operating_system_unix_li.Ext2.Image.{
  Text, Inode, Entry, Image, Out, ok, fault, ◌>>=◌, get_inode, ext2_dir_rec_len, eq_text, c_string,
  take_bytes,
}
use operating_system_unix_li.Ext2.Directory.{is_named}
use operating_system_unix_li.Ext2.Directory.Layout.{IsDir, locate, locate_hit, locate_miss}
use operating_system_unix_li.Ext2.Directory.Place.{IsListable, place_of, same_place}
use operating_system_unix_li.Ext2.Insert.{place, append_entry, add_entry}
use operating_system_unix_li.Ext2.Insert.Places.{last_at, slot_in, find_place_in-slot_in}
use operating_system_unix_li.Ext2.Insert.Grown.{shrunk, added, grown, with_entry, appended_lem}
use operating_system_unix_li.Ext2.Insert.Blocks.{nth-IsBlock, set-IsDir, locate_missing, locate-set}
use operating_system_unix_li.Ext2.Insert.Slots.{slot_in-IsSlot}

eq_text_refl : (cs : Text) → eq_text cs cs ≡ true
eq_text_refl [] = refl
eq_text_refl (c ∷ cs) = rw (==_refl c) (eq_text_refl cs)

take_all : (cs : Text) → take_bytes (length cs) cs ≡ cs
take_all [] = refl
take_all (c ∷ cs) = ap (◌∷◌ c) (take_all cs)

-- The entry has the name that is looked for, if that fits in 8 bits and holds no NUL.
added_named :
    (e : Entry) (inode : ℕ) (name : Text) (file_type : ℕ)
    → length name < 256
    → c_string name ≡ name
    → is_named name (added e inode name file_type) ≡ true
added_named e inode name file_type short plain =
    let all : length name % 2 ^ 8 ≡ length name = omega arith in
    ap (λ n. eq_text (c_string (take_bytes n name)) name) all
    ∙ ap (λ cs. eq_text (c_string cs) name) (take_all name)
    ∙ ap (λ cs. eq_text cs name) plain
    ∙ eq_text_refl name

none-some : {A : Type 0} (o : Option A) (a : A) → o ≡ none → o ≡ some a → ⊥
none-some o a h k = cc

module _ (name : Text) where
  locate_next :
      (addr : ℕ) (e : Entry) (es : List Entry)
      → locate (is_named name) addr (e ∷ es) ≡ none
      → (is_named name e ≡ false) × (locate (is_named name) (addr + e.rec_len) es ≡ none)
  locate_next addr e es h = elim (Bool-cases (is_named name e)) [
    | inl hits ↦ absurd (
        none-some (locate (is_named name) addr (e ∷ es)) (addr, e) h
          (locate_hit (is_named name) addr e es hits))
    | inr misses ↦ (misses, sym (locate_miss (is_named name) addr e es misses) ∙ h)
  ]

  locate-grown :
      (es : List Entry) (addr a : ℕ) (e new : Entry)
      → locate (is_named name) addr es ≡ none
      → last_at addr es ≡ some (a, e)
      → is_named name new ≡ true
      → locate (is_named name) addr (grown es new) ≡ some (a + ext2_dir_rec_len e.name_len, new)
  locate-grown [] addr a e new h ends hits = cc
  locate-grown (x ∷ []) addr a e new h ends hits =
      let (at, same) = same_place addr a x e ends in
      locate_miss (is_named name) addr (shrunk x) (new ∷ []) (locate_next addr x [] h).0
      ∙ locate_hit (is_named name) (addr + ext2_dir_rec_len x.name_len) new [] hits
      ∙ ap (λ i. some (i + ext2_dir_rec_len x.name_len, new)) at
      ∙ ap (λ y. some (a + ext2_dir_rec_len y.name_len, new)) same
  locate-grown (x ∷ x2 ∷ es) addr a e new h ends hits =
      let (misses, later) = locate_next addr x (x2 ∷ es) h in
      locate_miss (is_named name) addr x (grown (x2 ∷ es) new) misses
      ∙ locate-grown (x2 ∷ es) (addr + x.rec_len) a e new later ends hits

get_below :
    (ess : List (List Entry)) (es : List Entry) (j : ℕ) → get_elem? ess j ≡ some es → j < length ess
get_below [] es j h = cc
get_below (x ∷ ess) es zero h = omega arith
get_below (x ∷ ess) es (suc j) h = omega (arith, get_below ess es j h)

-- The inodes are read as before.
not_got : (o : Out Inode) (i : Inode) (d : Image) → o ≡ fault → o ≡ ok i d → ⊥
not_got o i d h k = cc

got_still :
    (d : Image) (n : ℕ) (f : ℕ → Entry)
    → get_inode n d ≡ ok (d.inodes n) d
    → get_inode n (record d { entries = f }) ≡ ok (d.inodes n) (record d { entries = f })
unfolding get_inode
got_still d n f got = elim (Bool-cases (ltb 0 n && ltb n 33)) [
  | inl h ↦ rw h refl
  | inr h ↦ absurd (not_got (get_inode n d) (d.inodes n) d (rw h refl) got)
]

module _ (d : Image) (dir : ℕ) (ess : List (List Entry)) (name : Text) (inode file_type a : ℕ)
    (e : Entry) (stale : Option ℕ) (is : IsListable d dir ess)
    (slot : slot_in (ext2_dir_rec_len (length name)) (d.inodes dir).i_block 0 ess ≡ place a e) where
  add_entry_at :
      (d' : Image)
      → append_entry a e inode name file_type d ≡ ok tt d'
      → add_entry stale dir inode name file_type d ≡ ok tt d'
  unfolding add_entry
  add_entry_at d' runs =
      let n : (d.inodes dir).i_size / 1024 ≡ length ess = omega (arith, is.1) in
      let found' =
        find_place_in-slot_in (ext2_dir_rec_len (length name)) d.entries (d.inodes dir).i_block 0
          ess is.2
        ∙ slot in
      simp (add_entry, ◌>>=◌, is.0, n, found', runs) refl

  -- The same with the image that is left.
  pub added_lem :
      place_of d dir ess name ≡ none
      → length name < 256
      → c_string name ≡ name
      → ((i j : ℕ)
          → i < length ess
          → j < length ess
          → i ≢ j
          → (d.inodes dir).i_block i ≢ (d.inodes dir).i_block j)
      → (ess' : List (List Entry)) × (add_entry stale dir inode name file_type d
          ≡ ok tt (with_entry d a e inode name file_type))
        × IsListable (with_entry d a e inode name file_type) dir ess'
        × (place_of (with_entry d a e inode name file_type) dir ess' name
            ≡ some (a + ext2_dir_rec_len e.name_len, added e inode name file_type))
  added_lem missing short plain apart =
      let blocks = (d.inodes dir).i_block in
      let new = added e inode name file_type in
      let d' = with_entry d a e inode name file_type in
      let (j, es, at, ends, room) =
        slot_in-IsSlot (ext2_dir_rec_len (length name)) blocks a e ess 0 slot in
      let (on_disk, filled) = nth-IsBlock d.entries blocks ess es 0 j is.2 at in
      let (runs, filled', outside) =
        appended_lem d (1024 * blocks (0 + j)) es a e inode name file_type filled
          (omega (arith, on_disk)) ends room in
      let dirs : IsDir d'.entries blocks 0 (set ess j (grown es new)) =
        set-IsDir d.entries blocks d'.entries ess es (grown es new) 0 j is.2 at filled' outside
          (λ i h ne.
            subst (λ m. blocks m ≢ blocks (0 + j)) (omega arith)
              (subst (λ m. blocks i ≢ blocks m) (omega arith)
                (apart i j h (get_below ess es j at) ne))) in
      (
        set ess j (grown es new),
        add_entry_at d' runs,
        (
          got_still d dir d'.entries is.0,
          is.1 ∙ ap (λ n. 1024 * n) (sym (length-set ess j (grown es new))),
          dirs,
        ),
        locate-set (is_named name) blocks ess es (grown es new) 0 j
            (a + ext2_dir_rec_len e.name_len, new) missing at
            (locate-grown name es (1024 * blocks (0 + j)) a e new
              (locate_missing (is_named name) blocks ess es 0 j missing at) ends
              (added_named e inode name file_type short plain)),
      )

  -- An entry is added to a directory whose entries fill its blocks, which have different numbers. If the
  -- name is not in the directory, is shorter than 256 bytes and has no NUL, and some block has room for it,
  -- then the insertion ends, the entries fill the blocks of the directory again, and the search for the
  -- name finds the new entry, behind the one that was last in the first block with room.
  pub add_entry-place_of :
      place_of d dir ess name ≡ none
      → length name < 256
      → c_string name ≡ name
      → ((i j : ℕ)
          → i < length ess
          → j < length ess
          → i ≢ j
          → (d.inodes dir).i_block i ≢ (d.inodes dir).i_block j)
      → (d' : Image) × (ess' : List (List Entry)) × (add_entry stale dir inode name file_type d
          ≡ ok tt d')
        × IsListable d' dir ess'
        × (place_of d' dir ess' name
            ≡ some (a + ext2_dir_rec_len e.name_len, added e inode name file_type))
  add_entry-place_of missing short plain apart =
      let (ess', runs, listable, there) = added_lem missing short plain apart in
      (with_entry d a e inode name file_type, ess', runs, listable, there)
