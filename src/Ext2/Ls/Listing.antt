-- ===== src/Ext2/Ls/Listing.antt =====
-- ext2_ls against the entries of the directory it lists.
use operating_system_unix_li.Base.{
  ℕ, zero, suc, ◌+◌, ◌-◌, ◌*◌, ◌%◌, ◌^◌, ◌<◌, ◌≤◌, ◌≡◌, refl, sym, ap, ◌∙◌, Bool, true, false, not,
  ◌&&◌, ◌||◌, List, [], ◌∷◌, ◌++◌, inl, inr, ◌==◌, lt→ltb, if◌then◌else◌, length, arith, Bool-cases,
}
use mathlib.Core.List.{append-nil, append_assoc}
use operating_system_unix_li.Ext2.Image.{
  Text, Entry, Image, ok, ◌>>=◌, print, get_inode, file_name, eq_text,
}
use operating_system_unix_li.Ext2.Ls.{bytes, is_shown, list_entries, list_dir}
use operating_system_unix_li.Ext2.Directory.Place.{IsListable}
use operating_system_unix_li.Ext2.Directory.Layout.{IsBlock, IsDir, at_end, not_at_end}

-- The image after a program has printed lines.
abbrev pub prints : List Text → Image → Image
prints lines d = record d { stdout = d.stdout ++ lines }

-- What `ls` should print of a name: nothing of one that is empty, and with -a every other name; without
-- it, neither `.` nor `..`.
abbrev is_visible : Bool → Text → Bool
is_visible aflag [] = false
is_visible true (c ∷ cs) = true
is_visible false (c ∷ []) = not (c == 46)
is_visible false (c ∷ c' ∷ []) = not (c == 46 && c' == 46)
is_visible false (c ∷ c' ∷ c'' ∷ cs) = true

-- The lines for an entry, for a block and for a directory.
abbrev pub shown_one : Bool → Entry → List Text
shown_one aflag e = if is_visible aflag (file_name e) then file_name e ∷ [] else []

-- The code compares the name with the two.
visible_lem :
    (aflag : Bool) (name : Text)
    → (not (eq_text name [])
        && (aflag || not (eq_text name (bytes ".") || eq_text name (bytes ".."))))
      ≡ is_visible aflag name
visible_lem aflag [] = refl
visible_lem true (c ∷ cs) = refl
visible_lem false (c ∷ []) = ground arith
visible_lem false (c ∷ c' ∷ []) = ground arith
visible_lem false (c ∷ c' ∷ c'' ∷ cs) = ground arith

is_shown_lem : (aflag : Bool) (e : Entry) → is_shown aflag e ≡ is_visible aflag (file_name e)
is_shown_lem aflag e = visible_lem aflag (file_name e)

abbrev pub shown : Bool → List Entry → List Text
shown aflag [] = []
shown aflag (e ∷ es) = shown_one aflag e ++ shown aflag es

abbrev pub shown_in : Bool → List (List Entry) → List Text
shown_in aflag [] = []
shown_in aflag (es ∷ ess) = shown aflag es ++ shown_in aflag ess

prints_none : (d : Image) → prints [] d ≡ d
prints_none d = ap (λ lines. record d { stdout = lines }) (append-nil d.stdout)

prints_both : (xs ys : List Text) (d : Image) → prints ys (prints xs d) ≡ prints (xs ++ ys) d
prints_both xs ys d = ap (λ lines. record d { stdout = lines }) (append_assoc d.stdout xs ys)

module _ (aflag : Bool) (blocks : ℕ → ℕ) (total : ℕ) where
  list_end :
      (rounds i addr size : ℕ) (d : Image)
      → total ≤ size
      → list_entries aflag blocks total rounds i addr size d ≡ ok tt d
  unfolding list_entries
  list_end zero i addr size d h = ground arith
  list_end (suc rounds) i addr size d h = ground arith

  module _ (rounds i addr size : ℕ) (e : Entry) (d : Image) (more : size < total)
      (mapped : addr < 2 ^ 17) (there : d.entries addr ≡ e) where
    list_inside :
        ((size + e.rec_len) % 1024 == 0) ≡ false
        → list_entries aflag blocks total (suc rounds) i addr size d
          ≡ list_entries aflag blocks total rounds i
              (addr + e.rec_len)
              (size + e.rec_len)
              (prints (shown_one aflag e) d)
    unfolding list_entries print
    list_inside inside = elim (Bool-cases (is_visible aflag (file_name e))) [
      | inl h ↦
          simp
            (
              lt→ltb size total more,
              lt→ltb addr (2 ^ 17) mapped,
              there,
              inside,
              is_shown_lem aflag e,
              h,
              ◌>>=◌,
            )
            refl
      | inr h ↦
          simp
            (
              lt→ltb size total more,
              lt→ltb addr (2 ^ 17) mapped,
              there,
              inside,
              is_shown_lem aflag e,
              h,
              append-nil d.stdout,
            )
            refl
    ]

    list_over :
        ((size + e.rec_len) % 1024 == 0) ≡ true
        → list_entries aflag blocks total (suc rounds) i addr size d
          ≡ list_entries aflag blocks total rounds
              (i + 1)
              (1024 * blocks (i + 1))
              (size + e.rec_len)
              (prints (shown_one aflag e) d)
    unfolding list_entries print
    list_over over = elim (Bool-cases (is_visible aflag (file_name e))) [
      | inl h ↦
          simp
            (
              lt→ltb size total more,
              lt→ltb addr (2 ^ 17) mapped,
              there,
              over,
              is_shown_lem aflag e,
              h,
              ◌>>=◌,
            )
            refl
      | inr h ↦
          simp
            (
              lt→ltb size total more,
              lt→ltb addr (2 ^ 17) mapped,
              there,
              over,
              is_shown_lem aflag e,
              h,
              append-nil d.stdout,
            )
            refl
    ]

-- One entry printed, and the rest after it.
listed :
    (aflag : Bool) (e : Entry) (rest : List Text) (d : Image)
    → prints rest (prints (shown_one aflag e) d) ≡ prints (shown_one aflag e ++ rest) d
listed aflag e rest d = prints_both (shown_one aflag e) rest d

list_from :
    (aflag : Bool) (blocks : ℕ → ℕ) (entries : ℕ → Entry) (ess : List (List Entry))
    (es : List Entry) (rounds k addr left size total : ℕ) (d : Image)
    → d.entries ≡ entries
    → 0 < left
    → left ≤ 1024
    → size + left ≡ 1024 * (k + 1)
    → total ≡ size + left + 1024 * length ess
    → total ≤ size + rounds
    → addr + left ≤ 2 ^ 17
    → IsBlock entries addr left es
    → IsDir entries blocks (suc k) ess
    → list_entries aflag blocks total rounds k addr size d
      ≡ ok tt (prints (shown aflag es ++ shown_in aflag ess) d)
list_from aflag blocks entries ess [] rounds k addr left size total d has pos small at all enough
      mapped b bs =
    absurd (omega (arith, b))
list_from aflag blocks entries ess (e ∷ es) zero k addr left size total d has pos small at all
      enough mapped b bs =
    absurd (omega arith)
list_from aflag blocks entries ess (e ∷ e2 ∷ es) (suc rounds) k addr left size total d has pos small
      at all enough mapped (there, long, fits, b) bs =
    let more : size < total = omega arith in
    let inside : addr < 2 ^ 17 = omega arith in
    let here : d.entries addr ≡ e = ap (λ f. f addr) has ∙ there in
    list_inside aflag blocks total rounds k addr size e d more inside here
      (not_at_end (size + e.rec_len) k (omega arith) (omega (arith, b.1, b.2)))
    ∙ list_from aflag blocks entries ess (e2 ∷ es) rounds k (addr + e.rec_len) (left - e.rec_len)
        (size + e.rec_len) total (prints (shown_one aflag e) d) has (omega (arith, b.1, b.2))
        (omega arith) (omega arith) (omega arith) (omega arith) (omega arith) b bs
    ∙ ap (ok tt) (listed aflag e (shown aflag (e2 ∷ es) ++ shown_in aflag ess) d)
    ∙ ap (λ lines. ok tt (prints lines d))
        (sym (append_assoc (shown_one aflag e) (shown aflag (e2 ∷ es)) (shown_in aflag ess)))
list_from aflag blocks entries [] (e ∷ []) (suc rounds) k addr left size total d has pos small at
      all enough mapped (there, long, fits, b) bs =
    let more : size < total = omega arith in
    let inside : addr < 2 ^ 17 = omega arith in
    let here : d.entries addr ≡ e = ap (λ f. f addr) has ∙ there in
    list_over aflag blocks total rounds k addr size e d more inside here
      (at_end (size + e.rec_len) (k + 1) (omega (arith, b)))
    ∙ list_end aflag blocks total rounds (k + 1) (1024 * blocks (k + 1)) (size + e.rec_len)
        (prints (shown_one aflag e) d) (omega (arith, b))
    ∙ ap (λ lines. ok tt (prints lines d))
        (sym (append-nil (shown_one aflag e)) ∙ sym (append-nil (shown_one aflag e ++ [])))
list_from aflag blocks entries (es' ∷ ess) (e ∷ []) (suc rounds) k addr left size total d has pos
      small at all enough mapped (there, long, fits, b) (on_disk, b', bs) =
    let more : size < total = omega arith in
    let inside : addr < 2 ^ 17 = omega arith in
    let next : k + 1 ≡ suc k = omega arith in
    let here : d.entries addr ≡ e = ap (λ f. f addr) has ∙ there in
    let d' = prints (shown_one aflag e) d in
    list_over aflag blocks total rounds k addr size e d more inside here
      (at_end (size + e.rec_len) (k + 1) (omega (arith, b)))
    ∙ ap (λ j. list_entries aflag blocks total rounds j (1024 * blocks j) (size + e.rec_len) d')
        next
    ∙ list_from aflag blocks entries ess es' rounds (suc k) (1024 * blocks (suc k)) 1024
        (size + e.rec_len) total d' has (omega arith) (omega arith) (omega (arith, b))
        (omega (arith, b)) (omega arith) (omega (arith, on_disk)) b' bs
    ∙ ap (ok tt) (listed aflag e (shown aflag es' ++ shown_in aflag ess) d)
    ∙ ap (λ xs. ok tt (prints (xs ++ (shown aflag es' ++ shown_in aflag ess)) d))
        (sym (append-nil (shown_one aflag e)))

list_all :
    (aflag : Bool) (blocks : ℕ → ℕ) (ess : List (List Entry)) (d : Image)
    → IsDir d.entries blocks 0 ess
    → list_entries aflag blocks (1024 * length ess) (1024 * length ess) 0 (1024 * blocks 0) 0 d
      ≡ ok tt (prints (shown_in aflag ess) d)
list_all aflag blocks [] d dir =
    list_end aflag blocks (1024 * 0) (1024 * 0) 0 (1024 * blocks 0) 0 d (omega arith)
    ∙ ap (ok tt) (sym (prints_none d))
list_all aflag blocks (es ∷ ess) d (on_disk, b, bs) =
    list_from aflag blocks d.entries ess es (1024 * suc (length ess)) 0 (1024 * blocks 0) 1024 0
      (1024 * suc (length ess)) d refl (omega arith) (omega arith) (omega arith) (omega arith)
      (omega arith) (omega (arith, on_disk)) b bs

list_dir_at :
    (aflag : Bool) (n : ℕ) (d : Image)
    → get_inode n d ≡ ok (d.inodes n) d
    → list_dir aflag n d
      ≡ list_entries aflag
          (d.inodes n).i_block
          (d.inodes n).i_size
          (d.inodes n).i_size
          0
          (1024 * (d.inodes n).i_block 0)
          0
          d
unfolding list_dir
list_dir_at aflag n d got = simp (list_dir, ◌>>=◌, got) refl

-- In a directory whose entries fill its blocks, `ls` prints the names of the entries in the order in
-- which they stand, and changes nothing else: all names that are not empty with -a, and all but `.` and
-- `..` without.
pub list_dir-shown_in :
    (aflag : Bool) (n : ℕ) (ess : List (List Entry)) (d : Image)
    → IsListable d n ess
    → list_dir aflag n d ≡ ok tt (prints (shown_in aflag ess) d)
list_dir-shown_in aflag n ess d (got, size, dir) =
    list_dir_at aflag n d got
    ∙ ap (λ s. list_entries aflag (d.inodes n).i_block s s 0 (1024 * (d.inodes n).i_block 0) 0 d)
        size
    ∙ list_all aflag (d.inodes n).i_block ess d dir
