-- ===== src/Mkfs/Append/Files.antt =====
-- `iappend` on a file with direct blocks: what the file holds before and after.
use raynix.Base.{
  ℕ, zero, suc, ◌+◌, ◌-◌, ◌*◌, ◌/◌, ◌%◌, ◌^◌, ◌<◌, ◌≤◌, ◌≡◌, refl, ap, subst, ◌∙◌, arith, true,
  false, min, ltb, ◌==◌, if◌then◌else◌, inl, inr, Bool-cases,
}
use native.Mathlib.Nat.{div-add-mod', div-eq_of_lt-le, div-lt_iff_lt-mul, mod-lt, mul-le-mul_right}
use raynix.Outcome.{Run, done}
use raynix.Mkfs.Order.{Bytes}
use raynix.Mkfs.Image.{Format, Host, Image, Dinode, place}
use raynix.Mkfs.Image.Sectors.{wsect-written, rsect-file}
use raynix.Mkfs.Append.{chunk, splice, block_for, append_loop}
use raynix.Mkfs.Append.Ends.{chunk-min}
use raynix.Mkfs.Append.Block.{IsArea, IsReady, IsTaken, block_for-IsTaken}
use raynix.Mkfs.Append.Round.{content, IsGrown, after_round, round-IsGrown, round-IsReady}

Grown-none :
    (fmt : Format) (host : Host) (lo off : ℕ) (p : Bytes) (din : Dinode) (m : Image)
    → IsGrown fmt host lo off 0 p din m din m
Grown-none fmt host lo off p din m = record {
  old = λ k lt. refl;
  new = λ j lt. absurd (omega arith);
  outside = λ b lt. refl;
  inode = refl;
  image = refl;
}

Grown-more :
    (fmt : Format) (host : Host) (lo off n1 n : ℕ) (p : Bytes) {d d1 d2 : Dinode} {m m1 m2 : Image}
    → IsGrown fmt host lo off n1 p d m d1 m1
    → IsGrown fmt host lo (off + n1) n (λ i. p (n1 + i)) d1 m1 d2 m2
    → IsGrown fmt host lo off (n1 + n) p d m d2 m2
Grown-more fmt host lo off n1 n p {d} {d1} {d2} {m} {m1} {m2} g h = record {
  old = λ k lt. h.old k (omega arith) ∙ g.old k lt;
  new = λ j lt. elim (Bool-cases (ltb j n1)) [
    | inl first ↦ h.old (off + j) (ground arith) ∙ g.new j (ground arith)
    | inr second ↦
        let le : n1 ≤ j = ground arith in
        ap (content fmt host m2 d2) (omega arith)
        ∙ h.new (j - n1) (omega arith)
        ∙ ap p (omega arith)
  ];
  outside = λ b lt. h.outside b lt ∙ g.outside b lt;
  inode = h.inode ∙ ap (λ (u : Dinode). record u { addrs = d2.addrs }) g.inode;
  image =
      h.image ∙ ap (λ (u : Image). record u { file = m2.file; freeblock = m2.freeblock }) g.image;
}

module _ (fmt : Format) (host : Host) (lo hi : ℕ) (area : IsArea fmt host lo hi)
    (direct : fmt.ndirect ≤ fmt.maxfile) (words : fmt.ndirect * fmt.bsize < 2 ^ 32) where
  -- How the loop ends.
  abbrev pub Result : Run (ℕ × Dinode × Image) → ℕ → Bytes → ℕ → Dinode → Image → Type 0
  Result run off p n din m =
      (din' : Dinode) × (m' : Image) × (run ≡ done (off + n, din', m'))
      × IsGrown fmt host lo off n p din m din' m'
      × IsReady fmt host lo hi (off + n) din' m'

  stopped :
      (off : ℕ) (p : Bytes) (n : ℕ) (din : Dinode) (m : Image) (other : Run (ℕ × Dinode × Image))
      → IsReady fmt host lo hi off din m
      → (n == 0) ≡ true
      → Result (if n == 0 then done (off, din, m) else other) off p n din m
  stopped off p zero din m other r e =
      let same : off ≡ off + 0 = omega arith in
      (
        din,
        m,
        ap (λ s. done (s, din, m)) same,
        Grown-none fmt host lo off p din m,
        subst (λ s. IsReady fmt host lo hi s din m) same r,
      )
  stopped off p (suc n) din m other r e = absurd (ground arith)

  -- A round of the loop on block `x`, and what the loop does behind it.
  module _ (off : ℕ) (p : Bytes) (n : ℕ) (din : Dinode) (m : Image)
      (r : IsReady fmt host lo hi off din m) (some_n : 0 < n)
      (fits : off + n ≤ fmt.ndirect * fmt.bsize) (x : ℕ) (din1 : Dinode) (m1 : Image)
      (e : block_for fmt host (off / fmt.bsize) din m ≡ done (x, din1, m1))
      (t : IsTaken fmt host lo (off / fmt.bsize) din m x din1 m1)
      (fbn : off / fmt.bsize < fmt.ndirect) (inside : m1.freeblock ≤ hi) where
    abbrev n1 : ℕ
    n1 = chunk fmt off n

    abbrev m2 : Image
    m2 = after_round fmt host lo hi area off n p din m r x din1 m1 t fbn inside

    x_hi : x < hi
    x_hi = omega (arith, t.handed_out)

    takes : n1 ≡ min n (fmt.bsize - off % fmt.bsize)
    takes =
        chunk-min fmt off n area.some_bytes
          (omega (arith, area.fits, area.not_boot, mul-le-mul_right fmt.bsize x_hi))

    next : 0 < n - n1 → (off + n1) / fmt.bsize ≡ off / fmt.bsize + 1
    next more =
        let at = div-add-mod' off fmt.bsize in
        let low = mod-lt off area.some_bytes in
        div-eq_of_lt-le fmt.bsize (omega (arith, takes, at, low)) (omega (arith, takes, at, low))

    ready : IsReady fmt host lo hi (off + n1) din1 m2
    ready = round-IsReady fmt host lo hi area off n p din m r x din1 m1 t fbn inside

    rest_fits : off + n1 + (n - n1) ≤ fmt.ndirect * fmt.bsize
    rest_fits = omega (arith, takes)

    fewer : n - n1 < n
    fewer = omega (arith, takes, mod-lt off area.some_bytes)

    unrolled :
        (fuel : ℕ)
        → append_loop fmt host (suc fuel) off p n din m
          ≡ append_loop fmt host fuel (off + n1) (λ i. p (n1 + i)) (n - n1) din1 m2
    unfolding append_loop
    unrolled fuel =
        let some_left : (n == 0) ≡ false = ground arith in
        let in_file : ltb (off / fmt.bsize) fmt.maxfile ≡ true = ground arith in
        let no_wrap : (off + n1) % 2 ^ 32 ≡ off + n1 = omega (arith, takes) in
        rw
          (
            some_left,
            in_file,
            e,
            rsect-file fmt host x m1 (area.seeks x t.from_lo x_hi) (area.reads x t.from_lo x_hi),
            wsect-written fmt host x (splice fmt off n1 p (λ i. m1.file (place fmt x + i))) m1
                (area.seeks x t.from_lo x_hi) (area.writes x t.from_lo x_hi),
            no_wrap,
          )
          refl

    continued :
        (fuel : ℕ)
        → Result
            (append_loop fmt host fuel (off + n1) (λ i. p (n1 + i)) (n - n1) din1 m2)
            (off + n1)
            (λ i. p (n1 + i))
            (n - n1)
            din1
            m2
        → Result (append_loop fmt host (suc fuel) off p n din m) off p n din m
    continued fuel (din', m', e', g, r') =
        let total : off + n1 + (n - n1) ≡ off + n = omega (arith, takes) in
        let all : n1 + (n - n1) ≡ n = omega (arith, takes) in
        (
          din',
          m',
          unrolled fuel ∙ e' ∙ ap (λ s. done (s, din', m')) total,
          subst (λ s. IsGrown fmt host lo off s p din m din' m') all
              (Grown-more fmt host lo off n1 (n - n1) p
                (round-IsGrown fmt host lo hi area off n p din m r x din1 m1 t fbn inside) g),
          subst (λ s. IsReady fmt host lo hi s din' m') total r',
        )

  -- The loop on `n` bytes that fit the direct blocks, with enough data blocks left for them.
  pub append_loop-IsGrown :
      (fuel off : ℕ) (p : Bytes) (n : ℕ) (din : Dinode) (m : Image)
      → IsReady fmt host lo hi off din m
      → off + n ≤ fmt.ndirect * fmt.bsize
      → n ≤ fuel
      → (0 < n → m.freeblock + fmt.ndirect ≤ hi + off / fmt.bsize)
      → Result (append_loop fmt host fuel off p n din m) off p n din m
  unfolding append_loop
  append_loop-IsGrown zero off p n din m r fits enough room =
      stopped off p n din m _ r (ground arith)
  append_loop-IsGrown (suc fuel) off p n din m r fits enough room = elim (Bool-cases (n == 0)) [
    | inl none_left ↦ stopped off p n din m _ r none_left
    | inr some_left ↦
        let some_n : 0 < n = ground arith in
        let bs = area.some_bytes in
        let fbn : off / fmt.bsize < fmt.ndirect =
          (div-lt_iff_lt-mul {k = fmt.bsize} {x = off} {y = fmt.ndirect} bs).1 (omega arith) in
        let (x, din1, m1, e, t) =
          block_for-IsTaken fmt host lo hi off din m area r (off / fmt.bsize) fbn
            (omega (arith, room some_n)) in
        let inside : m1.freeblock ≤ hi = omega (arith, t.one_more, room some_n) in
        continued off p n din m r some_n fits x din1 m1 e t fbn inside fuel (
          append_loop-IsGrown fuel (off + n1 off p n din m r some_n fits x din1 m1 e t fbn inside) _
            (n - n1 off p n din m r some_n fits x din1 m1 e t fbn inside) din1
            (m2 off p n din m r some_n fits x din1 m1 e t fbn inside)
            (ready off p n din m r some_n fits x din1 m1 e t fbn inside)
            (rest_fits off p n din m r some_n fits x din1 m1 e t fbn inside)
            (omega (arith, fewer off p n din m r some_n fits x din1 m1 e t fbn inside))
            (λ more. omega (
              arith,
              next off p n din m r some_n fits x din1 m1 e t fbn inside more,
              t.one_more,
              room some_n,
            )))
  ]
