-- ===== src/Mkfs/Image/Sectors.antt =====
-- What `wsect` leaves in the image.
use raynix.Base.{ℕ, ◌+◌, ◌-◌, ◌<◌, ◌≤◌, ◌≡◌, refl, ◌⊎◌, arith, true, ◌&&◌, ltb, leb, if◌then◌else◌}
use raynix.Outcome.{done}
use raynix.Mkfs.Order.{Bytes}
use raynix.Mkfs.Image.{Format, Host, Image, place, wsect, rsect}

abbrev pub written : Format → ℕ → Bytes → Image → Image
written fmt start buf m = record m {
  file = λ b. if leb start b && ltb b (start + fmt.bsize) then buf (b - start) else m.file b;
}

pub wsect-written :
    (fmt : Format) (host : Host) (sec : ℕ) (buf : Bytes) (m : Image)
    → host.seeks (place fmt sec) ≡ true
    → host.writes (place fmt sec) ≡ true
    → wsect fmt host sec buf m ≡ done (written fmt (place fmt sec) buf m)
unfolding wsect
wsect-written fmt host sec buf m seeks writes = rw (seeks, writes) refl

pub written-inside :
    (fmt : Format) (start i : ℕ) (buf : Bytes) (m : Image)
    → i < fmt.bsize
    → (written fmt start buf m).file (start + i) ≡ buf i
written-inside fmt start i buf m h =
    let e : start + i - start ≡ i = omega arith in rw e (ground arith)

pub written-outside :
    (fmt : Format) (start b : ℕ) (buf : Bytes) (m : Image)
    → (b < start) ⊎ (start + fmt.bsize ≤ b)
    → (written fmt start buf m).file b ≡ m.file b
written-outside fmt start b buf m h = ground arith

pub rsect-file :
    (fmt : Format) (host : Host) (sec : ℕ) (m : Image)
    → host.seeks (place fmt sec) ≡ true
    → host.reads (place fmt sec) ≡ true
    → rsect fmt host sec m ≡ done (λ i. m.file (place fmt sec + i))
unfolding rsect
rsect-file fmt host sec m seeks reads = rw (seeks, reads) refl
