-- ===== src/Tests/Layouts.antt =====
-- A layout of `struct dinode` in the bytes of a block, as a host with the low byte first has it: `type` at
-- 0, `major` at 2, `minor` at 4, `nlink` at 6, `size` at 8, and `addrs` from 12 on, in 64 bytes.
use raynix.Base.{
  ℕ, ◌+◌, ◌-◌, ◌*◌, ◌/◌, ◌%◌, ◌^◌, ◌<◌, ◌≤◌, ◌≡◌, refl, ap, subst, ◌∙◌, ◌⊎◌, inl, inr, arith, List,
  [], ◌∷◌, get_or, length, ltb, leb, ◌&&◌, if◌then◌else◌,
}
use native.Mathlib.Decide.{dec_lt}
use raynix.Mkfs.Order.{Bytes}
use raynix.Mkfs.Image.{Format, Dinode}
use raynix.Mkfs.Image.Inodes.{IsFormat}

abbrev short_at : Bytes → ℕ → ℕ
short_at buf a = buf a + 0x100 * buf (a + 1)

abbrev word_at : Bytes → ℕ → ℕ
word_at buf a = buf a + 0x100 * buf (a + 1) + 0x10000 * buf (a + 2) + 0x1000000 * buf (a + 3)

-- an integer of `n` bytes at `a`
abbrev put_int : ℕ → Bytes → ℕ → ℕ → Bytes
put_int n buf a v b = if leb a b && ltb b (a + n) then v / 2 ^ (8 * (b - a)) % 0x100 else buf b

abbrev pub bytes_of : Bytes → ℕ → Dinode
bytes_of buf k = record {
  type = short_at buf (64 * k);
  nlink = short_at buf (64 * k + 6);
  size = word_at buf (64 * k + 8);
  addrs = word_at buf (64 * k + 12) ∷ word_at buf (64 * k + 16) ∷ word_at buf (64 * k + 20) ∷ [];
}

abbrev set_members : Bytes → ℕ → Dinode → Bytes
set_members buf k d =
    put_int 4 (put_int 2 (put_int 2 buf (64 * k) d.type) (64 * k + 6) d.nlink) (64 * k + 8) d.size

abbrev pub set_bytes : Bytes → ℕ → Dinode → Bytes
set_bytes buf k d =
    put_int 4
      (put_int 4 (put_int 4 (set_members buf k d) (64 * k + 12) (get_or d.addrs 0 0)) (64 * k + 16)
        (get_or d.addrs 1 0))
      (64 * k + 20) (get_or d.addrs 2 0)

abbrev pub layout : Format
layout = record {
  bsize = 1024;
  fssize = 1000;
  logsize = 30;
  ipb = 16;
  ndirect = 2;
  maxfile = 258;
  rootino = 1;
  dirsiz = 14;
  t_dir = 1;
  t_file = 2;
  fsmagic = 0x10203040;
  dinode_size = 64;
  dirent_size = 16;
  iblock = λ i sb. i / 16 + sb.inodestart;
  get_dinode = bytes_of;
  set_dinode = set_bytes;
  super_bytes = λ sb i. if ltb i 4 then sb.magic / 2 ^ (8 * i) % 0x100 else 0;
  dirent_bytes = λ inum name i. if ltb i 2 then inum / 2 ^ (8 * i) % 0x100 else name (i - 2);
}

put_int-outside :
    (n : ℕ) (buf : Bytes) (a v b : ℕ) → (b < a) ⊎ (a + n ≤ b) → put_int n buf a v b ≡ buf b
put_int-outside n buf a v b (inl lt) = ground arith
put_int-outside n buf a v b (inr le) = ground arith

put_int-inside :
    (n : ℕ) (buf : Bytes) (a v i : ℕ) → i < n → put_int n buf a v (a + i) ≡ v / 2 ^ (8 * i) % 0x100
put_int-inside n buf a v i lt =
    let e : a + i - a ≡ i = omega arith in
    let here : put_int n buf a v (a + i) ≡ v / 2 ^ (8 * (a + i - a)) % 0x100 = ground arith in
    here ∙ ap (λ (t : ℕ). v / 2 ^ (8 * t) % 0x100) e

short_at-put_int : (buf : Bytes) (a v : ℕ) → v < 2 ^ 16 → short_at (put_int 2 buf a v) a ≡ v
short_at-put_int buf a v small =
    let e0 : put_int 2 buf a v a ≡ v / 2 ^ 0 % 0x100 =
      ap (put_int 2 buf a v) (omega arith) ∙ put_int-inside 2 buf a v 0 (omega arith) in
    omega (arith, e0, put_int-inside 2 buf a v 1 (omega arith))

word_at-put_int : (buf : Bytes) (a v : ℕ) → v < 2 ^ 32 → word_at (put_int 4 buf a v) a ≡ v
word_at-put_int buf a v small =
    let e0 : put_int 4 buf a v a ≡ v / 2 ^ 0 % 0x100 =
      ap (put_int 4 buf a v) (omega arith) ∙ put_int-inside 4 buf a v 0 (omega arith) in
    omega (
      arith,
      e0,
      put_int-inside 4 buf a v 1 (omega arith),
      put_int-inside 4 buf a v 2 (omega arith),
      put_int-inside 4 buf a v 3 (omega arith),
    )

-- An integer apart from the one that is put.
short_at-other :
    (n : ℕ) (buf : Bytes) (a v p : ℕ)
    → (p + 2 ≤ a) ⊎ (a + n ≤ p)
    → short_at (put_int n buf a v) p ≡ short_at buf p
short_at-other n buf a v p h =
    rw
      (
        put_int-outside n buf a v p (elim h [ inl x ↦ inl (omega arith) | inr x ↦ inr x ]),
        put_int-outside n buf a v (p + 1)
            (elim h [ inl x ↦ inl (omega arith) | inr x ↦ inr (omega arith) ]),
      )
      refl

word_at-other :
    (n : ℕ) (buf : Bytes) (a v p : ℕ)
    → (p + 4 ≤ a) ⊎ (a + n ≤ p)
    → word_at (put_int n buf a v) p ≡ word_at buf p
word_at-other n buf a v p h =
    let apart : (i : ℕ) → i < 4 → put_int n buf a v (p + i) ≡ buf (p + i) = λ i lt.
      put_int-outside n buf a v (p + i)
        (elim h [ inl x ↦ inl (omega arith) | inr x ↦ inr (omega arith) ]) in
    let first : put_int n buf a v p ≡ buf p =
      put_int-outside n buf a v p (elim h [ inl x ↦ inl (omega arith) | inr x ↦ inr x ]) in
    rw (first, apart 1 (omega arith), apart 2 (omega arith), apart 3 (omega arith)) refl

three : (xs : List ℕ) → length xs ≡ 3 → (get_or xs 0 0 ∷ get_or xs 1 0 ∷ get_or xs 2 0 ∷ []) ≡ xs
three [] e = absurd (omega arith)
three (a ∷ []) e = absurd (omega arith)
three (a ∷ b ∷ []) e = absurd (omega arith)
three (a ∷ b ∷ c ∷ []) e = refl
three (a ∷ b ∷ c ∷ d ∷ xs) e = absurd (omega arith)

-- `set_bytes` leaves the bytes outside the 24 of the inode.
set_bytes-outside :
    (buf : Bytes) (k : ℕ) (d : Dinode) (b : ℕ)
    → (b < 64 * k) ⊎ (64 * k + 24 ≤ b)
    → set_bytes buf k d b ≡ buf b
set_bytes-outside buf k d b h = ground arith

short_at-agree :
    (buf buf' : Bytes) (a : ℕ)
    → ((i : ℕ) → i < 2 → buf (a + i) ≡ buf' (a + i))
    → short_at buf a ≡ short_at buf' a
short_at-agree buf buf' a same =
    let first : buf a ≡ buf' a = subst (λ t. buf t ≡ buf' t) (omega arith) (same 0 (omega arith)) in
    rw (first, same 1 (omega arith)) refl

word_at-agree :
    (buf buf' : Bytes) (a : ℕ)
    → ((i : ℕ) → i < 4 → buf (a + i) ≡ buf' (a + i))
    → word_at buf a ≡ word_at buf' a
word_at-agree buf buf' a same =
    let first : buf a ≡ buf' a = subst (λ t. buf t ≡ buf' t) (omega arith) (same 0 (omega arith)) in
    rw (first, same 1 (omega arith), same 2 (omega arith), same 3 (omega arith)) refl

-- What is read of an inode are its 24 bytes.
bytes_of-agree :
    (buf buf' : Bytes) (k : ℕ)
    → ((b : ℕ) → 64 * k ≤ b → b < 64 * k + 24 → buf b ≡ buf' b)
    → bytes_of buf k ≡ bytes_of buf' k
bytes_of-agree buf buf' k same =
    rw
      (
        short_at-agree buf buf' (64 * k) (λ i lt. same _ (omega arith) (omega arith)),
        short_at-agree buf buf' (64 * k + 6) (λ i lt. same _ (omega arith) (omega arith)),
        word_at-agree buf buf' (64 * k + 8) (λ i lt. same _ (omega arith) (omega arith)),
        word_at-agree buf buf' (64 * k + 12) (λ i lt. same _ (omega arith) (omega arith)),
        word_at-agree buf buf' (64 * k + 16) (λ i lt. same _ (omega arith) (omega arith)),
        word_at-agree buf buf' (64 * k + 20) (λ i lt. same _ (omega arith) (omega arith)),
      )
      refl

-- each member, read from the bytes that `set_bytes` leaves
module _ (buf : Bytes) (k : ℕ) (d : Dinode) where
  abbrev with_type : Bytes
  with_type = put_int 2 buf (64 * k) d.type

  abbrev with_nlink : Bytes
  with_nlink = put_int 2 with_type (64 * k + 6) d.nlink

  abbrev with_size : Bytes
  with_size = put_int 4 with_nlink (64 * k + 8) d.size

  abbrev with_addr0 : Bytes
  with_addr0 = put_int 4 with_size (64 * k + 12) (get_or d.addrs 0 0)

  abbrev with_addr1 : Bytes
  with_addr1 = put_int 4 with_addr0 (64 * k + 16) (get_or d.addrs 1 0)

  short_under :
      (p : ℕ) → p + 2 ≤ 64 * k + 8 → short_at (set_bytes buf k d) p ≡ short_at with_nlink p
  short_under p le =
      short_at-other 4 with_addr1 (64 * k + 20) (get_or d.addrs 2 0) p (inl (omega arith))
      ∙ short_at-other 4 with_addr0 (64 * k + 16) (get_or d.addrs 1 0) p (inl (omega arith))
      ∙ short_at-other 4 with_size (64 * k + 12) (get_or d.addrs 0 0) p (inl (omega arith))
      ∙ short_at-other 4 with_nlink (64 * k + 8) d.size p (inl (omega arith))

  type_lem : d.type < 2 ^ 16 → short_at (set_bytes buf k d) (64 * k) ≡ d.type
  type_lem small =
      short_under (64 * k) (omega arith)
      ∙ short_at-other 2 with_type (64 * k + 6) d.nlink (64 * k) (inl (omega arith))
      ∙ short_at-put_int buf (64 * k) d.type small

  nlink_lem : d.nlink < 2 ^ 16 → short_at (set_bytes buf k d) (64 * k + 6) ≡ d.nlink
  nlink_lem small =
      short_under (64 * k + 6) (omega arith) ∙ short_at-put_int with_type (64 * k + 6) d.nlink small

  word_under : (p : ℕ) → p + 4 ≤ 64 * k + 16 → word_at (set_bytes buf k d) p ≡ word_at with_addr0 p
  word_under p le =
      word_at-other 4 with_addr1 (64 * k + 20) (get_or d.addrs 2 0) p (inl (omega arith))
      ∙ word_at-other 4 with_addr0 (64 * k + 16) (get_or d.addrs 1 0) p (inl (omega arith))

  size_lem : d.size < 2 ^ 32 → word_at (set_bytes buf k d) (64 * k + 8) ≡ d.size
  size_lem small =
      word_under (64 * k + 8) (omega arith)
      ∙ word_at-other 4 with_size (64 * k + 12) (get_or d.addrs 0 0) (64 * k + 8)
          (inl (omega arith))
      ∙ word_at-put_int with_nlink (64 * k + 8) d.size small

  addr0_lem :
      get_or d.addrs 0 0 < 2 ^ 32 → word_at (set_bytes buf k d) (64 * k + 12) ≡ get_or d.addrs 0 0
  addr0_lem small =
      word_under (64 * k + 12) (omega arith)
      ∙ word_at-put_int with_size (64 * k + 12) (get_or d.addrs 0 0) small

  addr1_lem :
      get_or d.addrs 1 0 < 2 ^ 32 → word_at (set_bytes buf k d) (64 * k + 16) ≡ get_or d.addrs 1 0
  addr1_lem small =
      word_at-other 4 with_addr1 (64 * k + 20) (get_or d.addrs 2 0) (64 * k + 16)
        (inl (omega arith))
      ∙ word_at-put_int with_addr0 (64 * k + 16) (get_or d.addrs 1 0) small

  addr2_lem :
      get_or d.addrs 2 0 < 2 ^ 32 → word_at (set_bytes buf k d) (64 * k + 20) ≡ get_or d.addrs 2 0
  addr2_lem small = word_at-put_int with_addr1 (64 * k + 20) (get_or d.addrs 2 0) small

pub layout-IsFormat : IsFormat layout
layout-IsFormat = record {
  same = λ buf k d lt formed.
      rw
        (
          type_lem buf k d formed.short_type,
          nlink_lem buf k d formed.short_nlink,
          size_lem buf k d formed.word_size,
          addr0_lem buf k d (formed.words 0),
          addr1_lem buf k d (formed.words 1),
          addr2_lem buf k d (formed.words 2),
        )
        (ap (λ xs. record d { addrs = xs }) (three d.addrs formed.blocks));
  apart = λ buf j k d hj hk ne. bytes_of-agree (set_bytes buf k d) buf j (λ b lo hi.
      set_bytes-outside buf k d b
        (elim (dec_lt j k) [ yes before ↦ inl (omega arith) | no after ↦ inr (omega arith) ]));
  local = λ buf buf' k lt agree. bytes_of-agree buf buf' k (λ b lo hi. agree b (omega arith));
  places = λ i j sb e e'. omega arith;
  some_inodes = omega arith;
}
