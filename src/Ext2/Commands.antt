-- ===== src/Ext2/Commands.antt =====
-- The main functions of ext2_mkdir and ext2_rm, from the path to the operation on its directory.
use operating_system_unix_li.Base.{
  ℕ, ◌+◌, ◌≡◌, ◌≢◌, refl, ap, ◌∙◌, false, some, List, [], ◌∷◌, ◌++◌, ltb, length,
}
use operating_system_unix_li.Ext2.Image.{
  Text, Entry, Image, Out, exited, ext2_dir_rec_len, ◌>>=◌, eq_text,
}
use operating_system_unix_li.Ext2.Path.{slash, has_slash, strip_slash, parent_and_name}
use operating_system_unix_li.Ext2.Path.Join.{join, AreNames, parent_of, parent_and_name-join}
use operating_system_unix_li.Ext2.Directory.Resolve.{End, arrives, misses, blocked, Way, here}
use operating_system_unix_li.Ext2.Lookup.{answer, find_dir_inode-answer}
use operating_system_unix_li.Ext2.Mkdir
use operating_system_unix_li.Ext2.Mkdir.{make_dir, mkdir_path}
use operating_system_unix_li.Ext2.Mkdir.Ready.{made, IsReady, make_dir_lem, make_dir_full}
use operating_system_unix_li.Ext2.Alloc.First.{AllSet}
use operating_system_unix_li.Ext2.Directory.Place.{IsListable, place_of}
use operating_system_unix_li.Ext2.Insert.Grown.{added}
use operating_system_unix_li.Ext2.Rm
use operating_system_unix_li.Ext2.Rm.{remove, rm_path}

-- The first directory of a path has a name: `//a` is not a path of this kind.
abbrev pub StartsNamed : List Text → Type 0
StartsNamed [] = Unit
StartsNamed (m ∷ names) = m ≢ []

-- An argument of the tools: at most 255 bytes, the names of the directories and the last name.
pub record IsPath (path : Text) (names : List Text) (name : Text) : Type 0 where
  pub short : ltb 255 (length path) ≡ false
  pub named : strip_slash path ≡ join (names ++ name ∷ [])
  pub parents : AreNames names
  pub last : has_slash name ≡ false
  pub starts : StartsNamed names

not_root : (m : Text) (names : List Text) → m ≢ [] → eq_text (join (m ∷ names)) (slash ∷ []) ≡ false
not_root [] names h = absurd (h refl)
not_root (c ∷ m) names h = refl

module _ (d : Image) where
  mkdir_parent :
      (names : List Text) (end : End)
      → AreNames names
      → StartsNamed names
      → Way d 2 names end
      → Mkdir.find_parent (parent_of names) d ≡ answer d end
  unfolding Mkdir.find_parent
  mkdir_parent [] end are starts (here _) = refl
  mkdir_parent (m ∷ names) end are starts way =
      rw (not_root m names starts) (find_dir_inode-answer d (m ∷ names) end are way).0

  rm_parent :
      (names : List Text) (end : End)
      → AreNames names
      → StartsNamed names
      → Way d 2 names end
      → Rm.find_parent (parent_of names) d ≡ answer d end
  unfolding Rm.find_parent
  rm_parent [] end are starts (here _) = refl
  rm_parent (m ∷ names) end are starts way =
      rw (not_root m names starts) (find_dir_inode-answer d (m ∷ names) end are way).1

-- What `rm` does by the end of the way to the parent.
abbrev pub rm_answer : Image → Text → End → Out (Unit {0})
rm_answer d name (arrives p) = remove p name d
rm_answer d name misses = exited 2 d
rm_answer d name (blocked at) = exited 1 d

-- What `mkdir` does by the ends of the ways to the parent and to the path itself.
abbrev mkdir_answer : Image → Text → End → End → Out (Unit {0})
mkdir_answer d name misses end = exited 2 d
mkdir_answer d name (blocked at) end = exited 1 d
mkdir_answer d name (arrives p) (arrives n) = exited 17 d
mkdir_answer d name (arrives p) (blocked at) = exited 1 d
mkdir_answer d name (arrives p) misses = make_dir p name d

split_at :
    (path : Text) (names : List Text) (name : Text)
    → IsPath path names name
    → parent_and_name (strip_slash path) ≡ some (parent_of names, name)
split_at path names name is = ap parent_and_name is.named ∙ parent_and_name-join names name is.last

rm_path_at :
    (path : Text) (names : List Text) (name : Text) (d : Image) (end : End)
    → IsPath path names name
    → Rm.find_parent (parent_of names) d ≡ answer d end
    → rm_path path d ≡ rm_answer d name end
unfolding rm_path
rm_path_at path names name d (arrives p) is finds =
    simp (rm_path, is.short, split_at path names name is, ◌>>=◌, finds) refl
rm_path_at path names name d misses is finds =
    simp (rm_path, is.short, split_at path names name is, ◌>>=◌, finds) refl
rm_path_at path names name d (blocked at) is finds =
    simp (rm_path, is.short, split_at path names name is, ◌>>=◌, finds) refl

AreNames-snoc :
    (names : List Text) (name : Text)
    → AreNames names
    → has_slash name ≡ false
    → AreNames (names ++ name ∷ [])
AreNames-snoc [] name are last = (last, tt)
AreNames-snoc (m ∷ names) name are last = (are.0, AreNames-snoc names name are.1 last)

mkdir_path_at :
    (path : Text) (names : List Text) (name : Text) (d : Image) (parent end : End)
    → IsPath path names name
    → Mkdir.find_parent (parent_of names) d ≡ answer d parent
    → Mkdir.find_dir_inode (strip_slash path) d ≡ answer d end
    → mkdir_path path d ≡ mkdir_answer d name parent end
unfolding mkdir_path
mkdir_path_at path names name d misses end is finds old =
    simp (mkdir_path, is.short, split_at path names name is, ◌>>=◌, finds) refl
mkdir_path_at path names name d (blocked at) end is finds old =
    simp (mkdir_path, is.short, split_at path names name is, ◌>>=◌, finds) refl
mkdir_path_at path names name d (arrives p) (arrives n) is finds old =
    simp (mkdir_path, is.short, split_at path names name is, ◌>>=◌, finds, old) refl
mkdir_path_at path names name d (arrives p) (blocked at) is finds old =
    simp (mkdir_path, is.short, split_at path names name is, ◌>>=◌, finds, old) refl
mkdir_path_at path names name d (arrives p) misses is finds old =
    simp (mkdir_path, is.short, split_at path names name is, ◌>>=◌, finds, old) refl

module _ (path : Text) (names : List Text) (name : Text) (d : Image) (parent : End)
    (is : IsPath path names name) (way : Way d 2 names parent) where
  -- For the path of a file, `rm` removes its last name from the directory at which the names before it
  -- arrive; it ends with ENOENT if one of them is missing and with 1 if one is a file, and then it
  -- changes nothing.
  pub rm_path-answer : rm_path path d ≡ rm_answer d name parent
  rm_path-answer =
      rm_path_at path names name d parent is (rm_parent d names parent is.parents is.starts way)

  mkdir_path_lem :
      (end : End)
      → Way d 2 (names ++ name ∷ []) end
      → mkdir_path path d ≡ mkdir_answer d name parent end
  mkdir_path_lem end way_on =
      let are = AreNames-snoc names name is.parents is.last in
      mkdir_path_at path names name d parent end is
        (mkdir_parent d names parent is.parents is.starts way)
        (ap (λ p. Mkdir.find_dir_inode p d) is.named
          ∙ (find_dir_inode-answer d (names ++ name ∷ []) end are way_on).0)

-- What `mkdir` can find, with the status and the image with which it has to end: a name on the way to the
-- parent is missing or is a file; the last name is there already, as a directory or as a file; there is
-- no free inode; or there is all that it needs.
pub data Situation (d : Image) (names : List Text) (name : Text) : ℕ → Image → Type 0 where
  no_parent :
      (end : End)
      → Way d 2 names misses
      → Way d 2 (names ++ name ∷ []) end
      → Situation d names name 2 d
  file_before :
      (at : Text) (end : End)
      → Way d 2 names (blocked at)
      → Way d 2 (names ++ name ∷ []) end
      → Situation d names name 1 d
  dir_there :
      (p n : ℕ)
      → Way d 2 names (arrives p)
      → Way d 2 (names ++ name ∷ []) (arrives n)
      → Situation d names name 17 d
  file_there :
      (p : ℕ) (at : Text)
      → Way d 2 names (arrives p)
      → Way d 2 (names ++ name ∷ []) (blocked at)
      → Situation d names name 1 d
  no_inode :
      (p : ℕ)
      → Way d 2 names (arrives p)
      → Way d 2 (names ++ name ∷ []) misses
      → AllSet d.inode_bitmap 0 32
      → Situation d names name 1 d
  ready :
      (p i b : ℕ) (ess : List (List Entry)) (a : ℕ) (e : Entry)
      → Way d 2 names (arrives p)
      → Way d 2 (names ++ name ∷ []) misses
      → IsReady d p i b ess name a e
      → Situation d names name 0 (made d p i b name a e)

-- After a directory was made the parent is listed again, and the search for the name finds the new entry.
abbrev pub Shows :
    (d : Image) (names : List Text) (name : Text) (s : ℕ) (d' : Image)
    → Situation d names name s d'
    → Type 0
Shows d names name s d' (no_parent end way way_on) = Unit
Shows d names name s d' (file_before at end way way_on) = Unit
Shows d names name s d' (dir_there p n way way_on) = Unit
Shows d names name s d' (file_there p at way way_on) = Unit
Shows d names name s d' (no_inode p way way_on all) = Unit
Shows d names name s d' (ready p i b ess a e way way_on is) =
    (ess' : List (List Entry)) × IsListable (made d p i b name a e) p ess'
    × (place_of (made d p i b name a e) p ess' name
        ≡ some (a + ext2_dir_rec_len e.name_len, added e (i + 1) name 2))

-- `mkdir` of a path, of at most 255 bytes and with single slashes between its names, ends as its
-- situation asks for. If a name before the last is missing it ends with ENOENT, if the whole path leads to
-- a directory with EEXIST, and if a name on the path is that of a file or no inode is free with 1, and the
-- image is as it was. Let the last name be missing, shorter than 256 bytes and without a NUL, and let the
-- entries of the parent fill its blocks, which have different numbers, with room in one of them for the
-- entry and its NUL; let the first free inode not be the parent, and the first free block be in the image
-- and none of the parent's. Then it ends with 0 and leaves the image in which that inode and that block
-- are taken and counted, the inode is that of a directory with two links, `.` and `..` stand in its block,
-- and the parent has one link more and the new entry, behind the one that was last in the first block with
-- room; and there the search for the name finds it.
pub mkdir_path-answer :
    (path : Text) (names : List Text) (name : Text) (d : Image) (s : ℕ) (d' : Image)
    → IsPath path names name
    → (found : Situation d names name s d')
    → (mkdir_path path d ≡ exited s d') × Shows d names name s d' found
mkdir_path-answer path names name d s d' is (no_parent end way way_on) =
    (mkdir_path_lem path names name d misses is way end way_on, tt)
mkdir_path-answer path names name d s d' is (file_before at end way way_on) =
    (mkdir_path_lem path names name d (blocked at) is way end way_on, tt)
mkdir_path-answer path names name d s d' is (dir_there p n way way_on) =
    (mkdir_path_lem path names name d (arrives p) is way (arrives n) way_on, tt)
mkdir_path-answer path names name d s d' is (file_there p at way way_on) =
    (mkdir_path_lem path names name d (arrives p) is way (blocked at) way_on, tt)
mkdir_path-answer path names name d s d' is (no_inode p way way_on all) = (
  mkdir_path_lem path names name d (arrives p) is way misses way_on ∙ make_dir_full d p name all,
  tt,
)
mkdir_path-answer path names name d s d' is (ready p i b ess a e way way_on ok_there) =
    let (runs, shows) = make_dir_lem d p i b ess name a e ok_there in
    (mkdir_path_lem path names name d (arrives p) is way misses way_on ∙ runs, shows)
