-- ===== src/Tests/Images.antt =====
-- mkfs/mkfs.c on an image with one file.
use raynix.Base.{
  ℕ, zero, suc, ◌+◌, ◌*◌, ◌/◌, ◌^◌, ◌<◌, ◌≤◌, ◌≡◌, refl, sym, ◌∙◌, ◌⊎◌, inl, inr, arith, true, List,
  [], ◌∷◌, get_or, some, ltb, ◌==◌, if◌then◌else◌,
}
use raynix.Outcome.{done, panic}
use raynix.Mkfs.Order.{little, xint}
use raynix.Mkfs.Image.{Host, Image, Dinode, rsect, rinode, winode, balloc}
use raynix.Mkfs.Image.Inodes.{IsDinode, IsWritten, winode-IsWritten}
use raynix.Mkfs.Image.Bitmap.{mark, balloc-mark}
use raynix.Tests.Layouts.{layout, layout-IsFormat}
use raynix.Mkfs.Append.{iappend}
use raynix.Mkfs.Append.Block.{IsArea}
use raynix.Mkfs.Append.Ends.{Ends}
use raynix.Mkfs.Append.Whole.{IsFile, IsAppended, iappend-IsAppended}
use raynix.Mkfs.Build.{Source, main}
use raynix.Mkfs.Build.Ends.{main-Ends}

abbrev willing : Host
willing = record { order = little; seeks = λ _. true; writes = λ _. true; reads = λ _. true }

-- Inode 1 has five bytes, in block 46.
abbrev small_file : Image
small_file = record {
  file = λ b. if b == 32840 then 5 else if b == 32844 then 46 else 0;
  sb = record {
    magic = 0x10203040;
    size = 1000;
    nblocks = 954;
    ninodes = 200;
    nlog = 30;
    logstart = 2;
    inodestart = 32;
    bmapstart = 45;
  };
  freeinode = 2;
  freeblock = 47;
}

abbrev five_bytes : Dinode
five_bytes = record { type = 0; nlink = 0; size = 5; addrs = 46 ∷ 0 ∷ 0 ∷ [] }

small_entries : (i : ℕ) → get_or (46 ∷ 0 ∷ 0 ∷ []) i 0 < 2 ^ 32
small_entries zero = omega arith
small_entries (suc zero) = omega arith
small_entries (suc (suc zero)) = omega arith
small_entries (suc (suc (suc i))) = omega arith

five_bytes-IsDinode : IsDinode layout five_bytes
five_bytes-IsDinode = record {
  short_type = omega arith;
  short_nlink = omega arith;
  word_size = omega arith;
  blocks = refl;
  words = small_entries;
}

data-IsArea : IsArea layout willing 46 1000
data-IsArea = record {
  not_boot = omega arith;
  some_bytes = omega arith;
  fits = omega arith;
  seeks = λ s lo hi. refl;
  reads = λ s lo hi. refl;
  writes = λ s lo hi. refl;
}

five_fits : xint little 5 + 1500 ≤ 2 * 1024
unfolding xint
five_fits = omega arith

five_room : 47 + 2 ≤ 1000 + xint little 5 / 1024
unfolding xint
five_room = omega arith

-- the direct entries, and what they name
abbrev entries : List ℕ
entries = 46 ∷ 0 ∷ 0 ∷ []

five_size : xint little 5 ≡ 5
unfolding xint
five_size = refl

entry_lem :
    (i : ℕ)
    → i < 2
    → ((i ≡ 0) × (xint little (get_or entries i 0) ≡ 46))
      ⊎ ((i ≡ 1) × (xint little (get_or entries i 0) ≡ 0))
unfolding xint
entry_lem zero lt = inl (refl, refl)
entry_lem (suc zero) lt = inr (refl, refl)
entry_lem (suc (suc i)) lt = absurd (omega arith)

small_file-IsFile : IsFile layout willing 46 1000 1 five_bytes small_file
unfolding rinode rsect
small_file-IsFile = record {
  reads_as = refl;
  formed = five_bytes-IsDinode;
  ready = record {
    blocks = refl;
    range = λ i lt. elim (entry_lem i lt) [
      | inl (_, e) ↦ rw e (inr (omega arith, omega arith))
      | inr (_, e) ↦ inl e
    ];
    single = λ i j hi hj ne e. elim (entry_lem i hi) [
      | inl (here, a) ↦ elim (entry_lem j hj) [
        | inl (there, _) ↦ here ∙ sym there
        | inr (_, b) ↦ absurd (omega (arith, a, b, e))
      ]
      | inr (_, a) ↦ absurd (ne a)
    ];
    begun = λ i lt h z. elim (entry_lem i lt) [
      | inl (_, a) ↦ omega (arith, a, z)
      | inr (one, _) ↦ omega (arith, one, five_size)
    ];
    words = small_entries;
    above = omega arith;
    below = omega arith;
  };
  before = omega arith;
  seeks = refl;
  reads = refl;
  writes = refl;
}

-- 1,500 bytes fill the first block and begin a second one.
iappend-IsAppended_example :
    (din' : Dinode) × (m' : Image) × (iappend layout willing 1 (λ i. 65) 1500 small_file ≡ done m')
    × IsAppended layout willing 46 1 1500 (λ i. 65) five_bytes small_file din' m'
iappend-IsAppended_example =
    iappend-IsAppended layout willing 46 1000 layout-IsFormat data-IsArea (omega arith)
      (omega arith) 1 1500 (λ i. 65) five_bytes small_file small_file-IsFile five_fits five_room

balloc-mark_example :
    ((47 < 8192)
      × (m' : Image) × (balloc layout willing 47 small_file ≡ done m')
      × ((j : ℕ) → j < 8192 → mark (λ k. m'.file (46080 + k)) j ≡ (if ltb j 47 then 1 else 0))
      × ((b : ℕ) → (b < 46080) ⊎ (47104 ≤ b) → m'.file b ≡ small_file.file b)
      × (m' ≡ record small_file { file = m'.file }))
    ⊎ ((8192 ≤ 47) × (balloc layout willing 47 small_file ≡ panic))
balloc-mark_example = balloc-mark layout willing 47 small_file refl refl

abbrev two_args : List Source
two_args =
    record { path = []; contents = some [] }
    ∷ record { path = 95 ∷ 108 ∷ 115 ∷ []; contents = some ((3, λ i. 65) ∷ []) }
    ∷ []

main-Ends_example : Ends (main layout willing two_args)
main-Ends_example = main-Ends layout willing (omega arith) (omega arith) two_args

winode-IsWritten_example :
    (m' : Image) × (winode layout willing 3 five_bytes small_file ≡ done m')
    × IsWritten layout willing 3 five_bytes small_file m'
winode-IsWritten_example =
    winode-IsWritten layout willing layout-IsFormat 3 five_bytes small_file five_bytes-IsDinode
      (omega arith) refl refl refl
