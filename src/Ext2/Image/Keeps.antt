-- ===== src/Ext2/Image/Keeps.antt =====
-- What a piece of a program keeps true of the image, put together as the program is.
use operating_system_unix_li.Base.{
  ℕ, ◌^◌, Bool, true, false, Option, none, some, inl, inr, ◌&&◌, ltb, if◌then◌else◌, Bool-cases,
  update,
}
use operating_system_unix_li.Ext2.Image.{
  Text, Inode, Entry, Image, Out, ok, exited, fault, Prog, ◌>>=◌, crash, get_inode, set_inode,
  set_i_block, set_entry, write_entry,
}

module _ (P : Image → Type 0) where
  -- The image at the end has the property, if the program goes on or ends.
  abbrev pub Holds : {A : Type 0} → Out A → Type 0
  Holds (ok a d) = P d
  Holds (exited s d) = P d
  Holds fault = Unit

  abbrev pub Keeps : {A : Type 0} → Prog A → Type 0
  Keeps x = (d : Image) → P d → Holds (x d)

  after-Keeps :
      {A B : Type 0} (o : Out A) (f : A → Prog B)
      → Holds o
      → ((a : A) → Keeps (f a))
      → Holds (elim o [ ok a d' ↦ f a d' | exited s d' ↦ exited s d' | fault ↦ fault ])
  after-Keeps (ok a d) f h rest = rest a d h
  after-Keeps (exited s d) f h rest = h
  after-Keeps fault f h rest = tt

  pub bind-Keeps :
      {A B : Type 0} (x : Prog A) (f : A → Prog B)
      → Keeps x
      → ((a : A) → Keeps (f a))
      → Keeps (x >>= f)
  bind-Keeps x f first rest d h = after-Keeps (x d) f (first d h) rest

  pub option-Keeps :
      {A B : Type 0} (o : Option A) (x : Prog B) (f : A → Prog B)
      → Keeps x
      → ((a : A) → Keeps (f a))
      → Keeps (elim o [ none ↦ x | some a ↦ f a ])
  option-Keeps none x f kx kf = kx
  option-Keeps (some a) x f kx kf = kf a

  pub if-Keeps :
      {A : Type 0} (b : Bool) (x y : Prog A) → Keeps x → Keeps y → Keeps (if b then x else y)
  if-Keeps true x y kx ky = kx
  if-Keeps false x y kx ky = ky

  pub if-Holds :
      {A : Type 0} (b : Bool) (x y : Out A) → Holds x → Holds y → Holds (if b then x else y)
  if-Holds true x y hx hy = hx
  if-Holds false x y hx hy = hy

  pub get_inode-Keeps : (n : ℕ) → Keeps (get_inode n)
  unfolding get_inode
  get_inode-Keeps n d h = elim (Bool-cases (ltb 0 n && ltb n 33)) [
    | inl e ↦ rw e h
    | inr e ↦ rw e tt
  ]

  -- A property that the inodes and the entries do not bear on.
  module _ (no_inodes : (d : Image) (f : ℕ → Inode) → P d → P (record d { inodes = f }))
      (no_entries : (d : Image) (f : ℕ → Entry) → P d → P (record d { entries = f })) where
    pub set_inode-Keeps : (n : ℕ) (f : Inode → Inode) → Keeps (set_inode n f)
    unfolding set_inode
    set_inode-Keeps n f d h = elim (Bool-cases (ltb 0 n && ltb n 33)) [
      | inl e ↦ rw e (no_inodes d (update d.inodes n (f (d.inodes n))) h)
      | inr e ↦ rw e tt
    ]

    pub set_i_block-Keeps : (n k b : ℕ) → Keeps (set_i_block n k b)
    unfolding set_i_block
    set_i_block-Keeps n k b =
        if-Keeps (ltb k 15) (set_inode n (λ i. record i { i_block = update i.i_block k b })) crash
          (set_inode-Keeps n (λ i. record i { i_block = update i.i_block k b })) (λ d h. tt)

    pub set_entry-Keeps : (addr : ℕ) (f : Entry → Entry) → Keeps (set_entry addr f)
    unfolding set_entry
    set_entry-Keeps addr f d h = elim (Bool-cases (ltb addr (2 ^ 17))) [
      | inl e ↦ rw e (no_entries d (update d.entries addr (f (d.entries addr))) h)
      | inr e ↦ rw e tt
    ]

    pub write_entry-Keeps :
        (addr inode : ℕ) (name : Text) (file_type rec_len : ℕ)
        → Keeps (write_entry addr inode name file_type rec_len)
    unfolding write_entry
    write_entry-Keeps addr inode name file_type rec_len = set_entry-Keeps addr _
