-- ===== src/Vm/Write.antt =====
-- A tree of tables after a write to one last-level entry.
use raynix.Base.{ℕ, ◌/◌, ◌%◌, ◌^◌, ◌≤◌, ◌<◌, ◌≡◌, sym, ap, ◌∙◌, ◌≢◌, inl, some, List, arith}
use raynix.Memory.{Addr, load64, store64}
use raynix.Memory.Words.{load64-store64_apart, store64-outside}
use raynix.Kalloc.{Kmem}
use raynix.Kalloc.Pages.{IsPage}
use raynix.Kalloc.Laws.{IsFree-spare}
use raynix.Vm.{slot}
use raynix.Vm.Table.{pte, vpn, lookup, IsTree}
use raynix.Vm.Entry.{slots_apart}
use raynix.Vm.Walk.{
  leaf_table, mid_table, IsFound, lookup-IsFound, IsFound-lookup, rank-mid, rank-leaf,
  lookup-injective,
}

-- the number of the page of `va` in the 39 bits that the tables read
abbrev pub page_of : ℕ → ℕ
page_of va = va / 2 ^ 12 % 2 ^ 27

module _ {root : Addr} {rank : Addr → ℕ} {xs : List ℕ} {s : Kmem} {entry : Addr} (va v : ℕ)
    (t : IsTree root rank xs s) (at : lookup s.mem root va ≡ some entry) (word : v < 2 ^ 64) where
  f : IsFound s.mem root va entry
  f = lookup-IsFound s.mem root va at

  leaf-IsPage : IsPage (leaf_table s.mem root va)
  leaf-IsPage = t.page (leaf_table s.mem root va) (omega (arith, rank-leaf t va f))

  not_leaf : (r : ℕ) → rank r ≢ 1 → r ≢ leaf_table s.mem root va
  not_leaf r ne e = ne (ap rank e ∙ rank-leaf t va f)

  inner : (r j : ℕ) → 2 ≤ rank r → j < 512 → pte (store64 s.mem entry v) r j ≡ pte s.mem r j
  inner r j high lt = load64-store64_apart s.mem entry v (slot r j) (
      rw (f.place) (
        slots_apart {i = vpn 0 va} leaf-IsPage (t.page r (omega arith)) (omega arith) lt
          (inl (λ e. not_leaf r (omega arith) (sym e)))))

  -- The tables stay a tree,
  pub written-IsTree : IsTree root rank xs (record s { mem = store64 s.mem entry v })
  written-IsTree = record {
    free =
        IsFree-spare (store64 s.mem entry v)
          (λ b h. store64-outside s.mem entry v b (omega (arith, f.place))) leaf-IsPage
          (λ x h. not_leaf x (omega (arith, t.spare x h))) t.free;
    unlocked = t.unlocked;
    top = t.top;
    page = t.page;
    spare = t.spare;
    below = λ r j high lt. rw (inner r j high lt) (t.below r j high lt);
    single =
        λ p i q j hp hq li lj. rw (inner p i hp li, inner q j hq lj) (t.single p i q j hp hq li lj);
  }

  -- every entry that is found is still found, and holds its value if it is another page's.
  pub written-kept :
      (vb : ℕ) {other : Addr}
      → lookup s.mem root vb ≡ some other
      → (lookup (store64 s.mem entry v) root vb ≡ some other)
        × (page_of vb ≢ page_of va → load64 (store64 s.mem entry v) other ≡ load64 s.mem other)
  written-kept vb {other} h = (
    IsFound-lookup (store64 s.mem entry v) root vb
        (record { top = rw top g.top; mid = rw (top, mid) g.mid; place = rw (top, mid) g.place }),
    λ ne.
        let differ = different ne in
        load64-store64_apart s.mem entry v other
          (omega (arith, f.place, g.place, leaf-IsPage.aligned, (leaf-IsPage').aligned)),
  )
    where
      g : IsFound s.mem root vb other
      g = lookup-IsFound s.mem root vb h

      leaf-IsPage' : IsPage (leaf_table s.mem root vb)
      leaf-IsPage' = t.page (leaf_table s.mem root vb) (omega (arith, rank-leaf t vb g))

      different : page_of vb ≢ page_of va → other ≢ entry
      different ne e =
          let same = lookup-injective t vb va (h ∙ ap some e) at in ne (omega (arith, same))

      top : pte (store64 s.mem entry v) root (vpn 2 vb) ≡ pte s.mem root (vpn 2 vb)
      top = inner root (vpn 2 vb) (omega (arith, t.top)) (omega arith)

      mid :
          pte (store64 s.mem entry v) (mid_table s.mem root vb) (vpn 1 vb)
          ≡ pte s.mem (mid_table s.mem root vb) (vpn 1 vb)
      mid =
          inner (mid_table s.mem root vb) (vpn 1 vb) (omega (arith, rank-mid t vb g)) (omega arith)
