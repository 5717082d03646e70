-- ===== src/Mkfs/Build/Ends.antt =====
-- `main` ends, on any arguments and any host.
use raynix.Base.{ℕ, zero, suc, ◌+◌, ◌^◌, ◌<◌, List, [], ◌∷◌, Option-cases, inl, inr}
use raynix.Mkfs.Order.{Bytes}
use raynix.Mkfs.Image.{Format, Host, Image, ialloc, balloc}
use raynix.Mkfs.Append.Ends.{
  Ends, done-Ends, panic-Ends, >>=-Ends, if-Ends, wsect-Ends, winode-Ends, rinode-Ends,
  iappend-Ends,
}
use raynix.Mkfs.Build.{
  Source, zero_loop, copy_loop, append_entry, add_file, file_loop, fix_root, fill_image, main,
}

module _ (fmt : Format) (host : Host) where
  zero_loop-Ends : (n i : ℕ) (m : Image) → Ends (zero_loop fmt host n i m)
  unfolding zero_loop
  zero_loop-Ends zero i m = done-Ends _
  zero_loop-Ends (suc n) i m =
      >>=-Ends _ _ (wsect-Ends fmt host i _ m) λ m1. zero_loop-Ends n (i + 1) m1

  ialloc-Ends : (type : ℕ) (m : Image) → Ends (ialloc fmt host type m)
  unfolding ialloc
  ialloc-Ends type m = >>=-Ends _ _ (winode-Ends fmt host _ _ _) λ m1. done-Ends _

  balloc-Ends : (used : ℕ) (m : Image) → Ends (balloc fmt host used m)
  unfolding balloc
  balloc-Ends used m = if-Ends _ _ _ (wsect-Ends fmt host _ _ m) panic-Ends

  fix_root-Ends : (m : Image) → Ends (fix_root fmt host m)
  unfolding fix_root
  fix_root-Ends m = >>=-Ends _ _ (rinode-Ends fmt host _ m) λ din. winode-Ends fmt host _ _ m

  module _ (some_ : 0 < fmt.bsize) (fits : fmt.bsize < 2 ^ 32) where
    entry-Ends : (inum : ℕ) (name : List ℕ) (m : Image) → Ends (append_entry fmt host inum name m)
    entry-Ends inum name m = iappend-Ends fmt host _ _ _ m some_ fits

    copy_loop-Ends :
        (inum : ℕ) (chunks : List (ℕ × Bytes)) (m : Image) → Ends (copy_loop fmt host inum chunks m)
    unfolding copy_loop
    copy_loop-Ends inum [] m = done-Ends _
    copy_loop-Ends inum ((cc, buf) ∷ rest) m =
        >>=-Ends _ _ (iappend-Ends fmt host inum buf cc m some_ fits)
          λ m1. copy_loop-Ends inum rest m1

    add_file-Ends : (source : Source) (m : Image) → Ends (add_file fmt host source m)
    unfolding add_file
    add_file-Ends source m = elim (Option-cases source.contents) [
      | inl unopened ↦ rw unopened (if-Ends _ _ _ panic-Ends panic-Ends)
      | inr (chunks, opened) ↦ rw opened (
          if-Ends _ _ _ panic-Ends (
            >>=-Ends _ _ (ialloc-Ends fmt.t_file m) λ (inum, m1).
              >>=-Ends _ _ (entry-Ends inum _ m1) λ m2. copy_loop-Ends inum chunks m2))
    ]

    file_loop-Ends : (sources : List Source) (m : Image) → Ends (file_loop fmt host sources m)
    unfolding file_loop
    file_loop-Ends [] m = done-Ends _
    file_loop-Ends (source ∷ rest) m =
        >>=-Ends _ _ (add_file-Ends source m) λ m1. file_loop-Ends rest m1

    fill_image-Ends : (sources : List Source) → Ends (fill_image fmt host sources)
    unfolding fill_image
    fill_image-Ends sources = >>=-Ends _ _ (zero_loop-Ends _ _ _) λ m1.
        >>=-Ends _ _ (wsect-Ends fmt host _ _ m1) λ m2.
          >>=-Ends _ _ (ialloc-Ends _ m2) λ (rootino, m3).
            if-Ends _ _ _
              (>>=-Ends _ _ (entry-Ends rootino (46 ∷ []) m3) λ m4.
                >>=-Ends _ _ (entry-Ends rootino (46 ∷ 46 ∷ []) m4) λ m5.
                  >>=-Ends _ _ (file_loop-Ends sources m5)
                    λ m6. >>=-Ends _ _ (fix_root-Ends m6) λ m7. balloc-Ends m7.freeblock m7)
              panic-Ends

    -- For a block size that is not 0 and fits a `uint`, `main` returns or dies on every list of
    -- arguments, whichever of the host's calls fail.
    pub main-Ends : (sources : List Source) → Ends (main fmt host sources)
    unfolding main
    main-Ends [] = panic-Ends
    main-Ends (image ∷ sources) = elim (Option-cases image.contents) [
      | inl unopened ↦ rw unopened (if-Ends _ _ _ panic-Ends panic-Ends)
      | inr (_, opened) ↦ rw opened (if-Ends _ _ _ (fill_image-Ends sources) panic-Ends)
    ]
