-- ===== src/Ext2/Insert/Grown.antt =====
-- The block of a directory to which an entry is added.
use operating_system_unix_li.Base.{
  ℕ, ◌+◌, ◌-◌, ◌%◌, ◌^◌, ◌<◌, ◌≤◌, ◌≡◌, ◌≢◌, ◌⊎◌, refl, sym, ap, subst, ◌∙◌, true, some, List, [],
  ◌∷◌, inl, inr, lt→ltb, length, arith, update, update_same, update_ne,
}
use operating_system_unix_li.Ext2.Image.{
  Text, Entry, Image, ok, ◌>>=◌, ext2_dir_rec_len, set_entry, write_entry,
}
use operating_system_unix_li.Ext2.Directory.Layout.{IsBlock}
use operating_system_unix_li.Ext2.Directory.Place.{same_place}
use operating_system_unix_li.Ext2.Insert.{append_entry}
use operating_system_unix_li.Ext2.Insert.Places.{last_at, spare}

-- EXT2_DIR_REC_LEN is the least multiple of 4 that holds a name and the 8 bytes before it.
pub ext2_dir_rec_len_bounds :
    (n : ℕ)
    → (n + 8 ≤ ext2_dir_rec_len n) × (ext2_dir_rec_len n < n + 12) × (ext2_dir_rec_len n % 4 ≡ 0)
unfolding ext2_dir_rec_len
ext2_dir_rec_len_bounds n = (omega arith, omega arith, omega arith)

-- The last entry without the space it does not use, and the entry that takes it.
abbrev pub shrunk : Entry → Entry
shrunk e = record e { rec_len = ext2_dir_rec_len e.name_len }

abbrev pub added : Entry → ℕ → Text → ℕ → Entry
added e inode name file_type = record {
  inode = inode;
  rec_len = (e.rec_len - ext2_dir_rec_len e.name_len) % 2 ^ 16;
  name_len = length name % 2 ^ 8;
  file_type = file_type;
  name = name;
}

abbrev pub grown : List Entry → Entry → List Entry
grown [] new = []
grown (e ∷ []) new = shrunk e ∷ new ∷ []
grown (e ∷ e2 ∷ es) new = e ∷ grown (e2 ∷ es) new

last_at_above :
    (entries : ℕ → Entry) (es : List Entry) (addr left a : ℕ) (e : Entry)
    → IsBlock entries addr left es
    → last_at addr es ≡ some (a, e)
    → (addr ≤ a) × (a + e.rec_len ≤ addr + left) × (entries a ≡ e)
last_at_above entries [] addr left a e b h = cc
last_at_above entries (x ∷ []) addr left a e (there, long, fits, b) h =
    let (at, is) = same_place addr a x e h in
    let len : x.rec_len ≡ e.rec_len = ap (λ y. y.rec_len) is in
    (omega arith, omega arith, ap entries (sym at) ∙ there ∙ is)
last_at_above entries (x ∷ x2 ∷ es) addr left a e (there, long, fits, b) h =
    let (low, high, is) =
      last_at_above entries (x2 ∷ es) (addr + x.rec_len) (left - x.rec_len) a e b h in
    (omega arith, omega arith, is)

grown_last :
    (entries' : ℕ → Entry) (a : ℕ) (e new : Entry) (left : ℕ)
    → entries' a ≡ shrunk e
    → entries' (a + ext2_dir_rec_len e.name_len) ≡ new
    → new.rec_len ≡ e.rec_len - ext2_dir_rec_len e.name_len
    → ext2_dir_rec_len e.name_len < e.rec_len
    → e.rec_len ≡ left
    → IsBlock entries' a left (grown (e ∷ []) new)
grown_last entries' a e new left here there len room all =
    let (long, short, round) = ext2_dir_rec_len_bounds e.name_len in
    (here, omega arith, omega arith, (there, omega arith, omega arith, omega arith))

grown-IsBlock :
    (entries entries' : ℕ → Entry) (a : ℕ) (e new : Entry) (es : List Entry) (addr left : ℕ)
    → ((x : ℕ) → x < a → entries' x ≡ entries x)
    → entries' a ≡ shrunk e
    → entries' (a + ext2_dir_rec_len e.name_len) ≡ new
    → new.rec_len ≡ e.rec_len - ext2_dir_rec_len e.name_len
    → ext2_dir_rec_len e.name_len < e.rec_len
    → IsBlock entries addr left es
    → last_at addr es ≡ some (a, e)
    → IsBlock entries' addr left (grown es new)
grown-IsBlock entries entries' a e new [] addr left before here there len room b h = cc
grown-IsBlock entries entries' a e new (x ∷ []) addr left before here there len room
      (is, long, fits, b) h =
    let (at, same) = same_place addr a x e h in
    let len_x : x.rec_len ≡ e.rec_len = ap (λ y. y.rec_len) same in
    subst (λ y. IsBlock entries' y left (grown (x ∷ []) new)) (sym at)
      (subst (λ y. IsBlock entries' a left (grown (y ∷ []) new)) (sym same)
        (grown_last entries' a e new left here there len room (omega (arith, b))))
grown-IsBlock entries entries' a e new (x ∷ x2 ∷ es) addr left before here there len room
      (is, long, fits, b) h =
    let (low, high, at) =
      last_at_above entries (x2 ∷ es) (addr + x.rec_len) (left - x.rec_len) a e b h in
    (
      before addr (omega arith) ∙ is,
      long,
      fits,
      grown-IsBlock entries entries' a e new (x2 ∷ es) (addr + x.rec_len) (left - x.rec_len) before
          here there len room b h,
    )

abbrev pub with_entry : Image → ℕ → Entry → ℕ → Text → ℕ → Image
with_entry d a e inode name file_type = record d {
  entries =
      update (update d.entries a (shrunk (d.entries a))) (a + ext2_dir_rec_len e.name_len)
        (added e inode name file_type);
}

module _ (d : Image) (a : ℕ) (e : Entry) (inode : ℕ) (name : Text) (file_type : ℕ) where
  appended :
      a < 2 ^ 17
      → a + ext2_dir_rec_len e.name_len < 2 ^ 17
      → append_entry a e inode name file_type d ≡ ok tt (with_entry d a e inode name file_type)
  unfolding append_entry set_entry write_entry
  appended low high =
      simp (◌>>=◌, lt→ltb a (2 ^ 17) low, lt→ltb (a + ext2_dir_rec_len e.name_len) (2 ^ 17) high)
        refl

twice_ne :
    (f : ℕ → Entry) (a b : ℕ) (cut new : Entry) (x : ℕ)
    → x ≢ a
    → x ≢ b
    → update (update f a cut) b new x ≡ f x
twice_ne f a b cut new x h k = update_ne (update f a cut) b new x k ∙ update_ne f a cut x h

module _ (d : Image) (start : ℕ) (es : List Entry) (a : ℕ) (e : Entry) (inode : ℕ) (name : Text)
    (file_type : ℕ) (b : IsBlock d.entries start 1024 es) (mapped : start + 1024 ≤ 2 ^ 17)
    (ends : last_at start es ≡ some (a, e))
    (room : spare (ext2_dir_rec_len (length name)) e ≡ true) where
  pub appended_lem :
      (append_entry a e inode name file_type d ≡ ok tt (with_entry d a e inode name file_type))
      × IsBlock
          (with_entry d a e inode name file_type).entries
          start
          1024
          (grown es (added e inode name file_type))
      × ((x : ℕ)
          → (x < start) ⊎ (start + 1024 ≤ x)
          → (with_entry d a e inode name file_type).entries x ≡ d.entries x)
  appended_lem =
      let l = ext2_dir_rec_len e.name_len in
      let (low, high, at) = last_at_above d.entries es start 1024 a e b ends in
      let (need, short, round) = ext2_dir_rec_len_bounds (length name) in
      let (own, short', round') = ext2_dir_rec_len_bounds e.name_len in
      let fits : ext2_dir_rec_len (length name) + l ≤ e.rec_len = ground (arith, room) in
      let cut = shrunk (d.entries a) in
      let new = added e inode name file_type in
      let entries' = update (update d.entries a cut) (a + l) new in
      let before : (x : ℕ) → x < a → entries' x ≡ d.entries x =
        λ x h. twice_ne d.entries a (a + l) cut new x (omega arith) (omega arith) in
      let cut_at : entries' a ≡ shrunk e =
        update_ne (update d.entries a cut) (a + l) new a (omega arith)
        ∙ update_same d.entries a cut
        ∙ ap shrunk at in
      (
        appended d a e inode name file_type (omega arith) (omega arith),
        grown-IsBlock d.entries entries' a e new es start 1024 before cut_at
            (update_same (update d.entries a cut) (a + l) new) (omega arith) (omega arith) b ends,
        λ x out. elim out [
          | inl h ↦ twice_ne d.entries a (a + l) cut new x (omega arith) (omega arith)
          | inr h ↦ twice_ne d.entries a (a + l) cut new x (omega arith) (omega arith)
        ],
      )

  -- If the entries fill a block and the last has room behind its name for the new one, and for the NUL
  -- that `strcpy` writes behind the name of the new one, then the insertion ends, the entries fill the block again, which are the old ones, the last of them cut to what it
  -- needs, and the new one behind it with the rest of the block, and no entry outside the block is
  -- changed.
  pub append_entry-IsBlock :
      ext2_dir_rec_len e.name_len + (8 + length name + 1) ≤ e.rec_len
      → (d' : Image) × (append_entry a e inode name file_type d ≡ ok tt d')
        × IsBlock d'.entries start 1024 (grown es (added e inode name file_type))
        × ((x : ℕ) → (x < start) ⊎ (start + 1024 ≤ x) → d'.entries x ≡ d.entries x)
  append_entry-IsBlock ends_inside =
      let (runs, filled, outside) = appended_lem in
      (with_entry d a e inode name file_type, runs, filled, outside)
