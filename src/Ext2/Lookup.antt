-- ===== src/Ext2/Lookup.antt =====
-- find_dir_inode of the four tools, against the tree of directories.
use operating_system_unix_li.Base.{ℕ, ◌≡◌, refl, Option, none, some, List, [], ◌∷◌, ◌∙◌}
use operating_system_unix_li.Ext2.Image.{Text, Image, Out, ok, exited, ret, exit, ◌>>◌, print}
use operating_system_unix_li.Ext2.Path.Join.{join, AreNames}
use operating_system_unix_li.Ext2.Directory.Resolve.{
  End, arrives, misses, blocked, Way, conclude, find_inode-conclude,
}
use operating_system_unix_li.Ext2.Ls
use operating_system_unix_li.Ext2.Ls.{bytes}
use operating_system_unix_li.Ext2.Ls.Listing.{prints}
use operating_system_unix_li.Ext2.Mkdir
use operating_system_unix_li.Ext2.Rm
use operating_system_unix_li.Ext2.Ln

-- What mkdir, rm and ln make of the end of the way: -1 for a name that is missing, and exit(1) at a file.
abbrev pub answer : Image → End → Out (Option ℕ)
answer d (arrives n) = ok (some n) d
answer d misses = ok none d
answer d (blocked name) = exited 1 d

-- And what ls makes of it: it prints, and ends with 0 at a file.
abbrev pub answer_ls : Image → End → Out (Option ℕ)
answer_ls d (arrives n) = ok (some n) d
answer_ls d misses = ok none (prints (bytes "No such file or directory" ∷ []) d)
answer_ls d (blocked name) = exited 0 (prints (name ∷ []) d)

quiet : (d : Image) (end : End) → conclude (λ name. exit 1) (ret none) d end ≡ answer d end
quiet d (arrives n) = refl
quiet d misses = refl
quiet d (blocked name) = refl

loud :
    (d : Image) (end : End)
    → conclude
        (λ name. print name >> exit 0)
        (print (bytes "No such file or directory") >> ret none)
        d
        end
      ≡ answer_ls d end
unfolding print
loud d (arrives n) = refl
loud d misses = refl
loud d (blocked name) = refl

module _ (d : Image) (names : List Text) (end : End) (are : AreNames names)
    (way : Way d 2 names end) where
  in_mkdir : Mkdir.find_dir_inode (join names) d ≡ answer d end
  unfolding Mkdir.find_dir_inode
  in_mkdir =
      find_inode-conclude (λ name. exit 1) (ret none) d (λ name. (1, d, refl)) d refl names end are
        way
      ∙ quiet d end

  in_rm : Rm.find_dir_inode (join names) d ≡ answer d end
  unfolding Rm.find_dir_inode
  in_rm =
      find_inode-conclude (λ name. exit 1) (ret none) d (λ name. (1, d, refl)) d refl names end are
        way
      ∙ quiet d end

  in_ln : Ln.find_dir_inode (join names) d ≡ answer d end
  unfolding Ln.find_dir_inode
  in_ln =
      find_inode-conclude (λ name. exit 1) (ret none) d (λ name. (1, d, refl)) d refl names end are
        way
      ∙ quiet d end

  in_ls : Ls.find_dir_inode (join names) d ≡ answer_ls d end
  unfolding Ls.find_dir_inode print
  in_ls =
      find_inode-conclude (λ name. print name >> exit 0)
        (print (bytes "No such file or directory") >> ret none) d
        (λ name. (0, prints (name ∷ []) d, refl))
        (prints (bytes "No such file or directory" ∷ []) d) refl names end are way
      ∙ loud d end

  -- For a path whose names lead from the root through directories, each with its blocks next to each
  -- other and filled by its entries, `find_dir_inode` of each of the four tools ends and answers as the
  -- tree says: the inode at the end of the way, -1 if a name is missing, and the end of the program
  -- at a name that is a file or a symbolic link, with 1 or, in ls, with 0 and the name printed.
  pub find_dir_inode-answer :
      (Mkdir.find_dir_inode (join names) d ≡ answer d end)
      × (Rm.find_dir_inode (join names) d ≡ answer d end)
      × (Ln.find_dir_inode (join names) d ≡ answer d end)
      × (Ls.find_dir_inode (join names) d ≡ answer_ls d end)
  find_dir_inode-answer = (in_mkdir, in_rm, in_ln, in_ls)
