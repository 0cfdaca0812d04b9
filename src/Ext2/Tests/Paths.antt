-- ===== src/Ext2/Tests/Paths.antt =====
-- The properties of paths, directories and the main functions on the test image.
use operating_system_unix_li.Base.{◌+◌, List, ◌≡◌, refl, false, some, [], ◌∷◌, ◌++◌, arith}
use operating_system_unix_li.Ext2.Image.{Entry, ok, exited, get_inode, ext2_dir_rec_len}
use operating_system_unix_li.Ext2.Mkdir.Ready.{made, IsReady}
use operating_system_unix_li.Ext2.Directory.Place.{IsListable, place_of}
use operating_system_unix_li.Ext2.Insert.Grown.{added}
use operating_system_unix_li.Ext2.Path.{strip_slash, parent_and_name}
use operating_system_unix_li.Ext2.Path.Join.{join, parent_of, parent_and_name-join}
use operating_system_unix_li.Ext2.Directory.Resolve.{arrives}
use operating_system_unix_li.Ext2.Lookup.{answer, answer_ls, find_dir_inode-answer}
use operating_system_unix_li.Ext2.Insert.{find_place_in}
use operating_system_unix_li.Ext2.Insert.Places.{slot_in, find_place_in-slot_in}
use operating_system_unix_li.Ext2.Ls
use operating_system_unix_li.Ext2.Ls.{bytes, list_dir}
use operating_system_unix_li.Ext2.Ls.Listing.{prints, list_dir-shown_in}
use operating_system_unix_li.Ext2.Mkdir
use operating_system_unix_li.Ext2.Mkdir.{mkdir_path}
use operating_system_unix_li.Ext2.Rm
use operating_system_unix_li.Ext2.Rm.{rm_path}
use operating_system_unix_li.Ext2.Ln
use operating_system_unix_li.Ext2.Commands.{
  IsPath, ready, rm_answer, rm_path-answer, mkdir_path-answer,
}
use operating_system_unix_li.Ext2.Tests.{
  disk, root_entries, root-IsBlock, root-IsListable, d-Way, x-Way, d_entries, d-IsBlock, entry,
}

parent_and_name_example :
    parent_and_name (join ((bytes "d" ∷ []) ++ bytes "x" ∷ []))
    ≡ some (parent_of (bytes "d" ∷ []), bytes "x")
parent_and_name_example = parent_and_name-join (bytes "d" ∷ []) (bytes "x") refl

find_dir_inode_example :
    (Mkdir.find_dir_inode (join (bytes "d" ∷ [])) disk ≡ answer disk (arrives 12))
    × (Rm.find_dir_inode (join (bytes "d" ∷ [])) disk ≡ answer disk (arrives 12))
    × (Ln.find_dir_inode (join (bytes "d" ∷ [])) disk ≡ answer disk (arrives 12))
    × (Ls.find_dir_inode (join (bytes "d" ∷ [])) disk ≡ answer_ls disk (arrives 12))
find_dir_inode_example = find_dir_inode-answer disk (bytes "d" ∷ []) (arrives 12) (refl, tt) d-Way

list_dir_example :
    list_dir false 2 disk ≡ ok tt (prints (bytes "d" ∷ bytes "f" ∷ bytes "g" ∷ []) disk)
list_dir_example = list_dir-shown_in false 2 (root_entries ∷ []) disk root-IsListable

x-IsPath : IsPath (bytes "/d/x/") (bytes "d" ∷ []) (bytes "x")
unfolding strip_slash
x-IsPath = record {
  short = refl;
  named = refl;
  parents = (refl, tt);
  last = refl;
  starts = λ h. cc;
}

rm_path_example : rm_path (bytes "/d/x/") disk ≡ rm_answer disk (bytes "x") (arrives 12)
rm_path_example =
    rm_path-answer (bytes "/d/x/") (bytes "d" ∷ []) (bytes "x") disk (arrives 12) x-IsPath d-Way

abbrev last_d : Entry
last_d = entry 2 1012 2 (bytes "..")

d-IsListable : IsListable disk 12 (d_entries ∷ [])
unfolding get_inode
d-IsListable = (refl, refl, (omega arith, d-IsBlock, tt))

x-IsReady : IsReady disk 12 14 12 (d_entries ∷ []) (bytes "x") 10252 last_d
unfolding ext2_dir_rec_len
x-IsReady = record {
  inode = (omega arith, omega arith, refl, λ j low high. ground arith);
  block = (omega arith, omega arith, refl, λ j low high. ground arith);
  inside = omega arith;
  other = λ h. absurd (omega (arith, h));
  listable = d-IsListable;
  apart = λ j k low low' ne same. ne (omega arith);
  unused = λ k low. ground arith;
  slot = refl;
  missing = refl;
  short = omega arith;
  plain = refl;
  ends_inside = omega arith;
}

mkdir_path_example :
    (mkdir_path (bytes "/d/x/") disk ≡ exited 0 (made disk 12 14 12 (bytes "x") 10252 last_d))
    × ((ess' : List (List Entry)) × IsListable (made disk 12 14 12 (bytes "x") 10252 last_d) 12 ess'
        × (place_of (made disk 12 14 12 (bytes "x") 10252 last_d) 12 ess' (bytes "x")
            ≡ some (10252 + ext2_dir_rec_len 2, added last_d 15 (bytes "x") 2)))
mkdir_path_example =
    mkdir_path-answer (bytes "/d/x/") (bytes "d" ∷ []) (bytes "x") disk 0
      (made disk 12 14 12 (bytes "x") 10252 last_d) x-IsPath
      (ready 12 14 12 (d_entries ∷ []) 10252 last_d d-Way x-Way x-IsReady)

find_place_in_example :
    find_place_in 12 disk.entries (λ k. 9) 1 0 ≡ slot_in 12 (λ k. 9) 0 (root_entries ∷ [])
find_place_in_example =
    find_place_in-slot_in 12 disk.entries (λ k. 9) 0 (root_entries ∷ [])
      (omega arith, root-IsBlock, tt)
