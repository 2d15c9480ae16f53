-- ===== src/Pmm/PageAlloc/Relink.antt =====
-- `prenode->next = …` or `head = …`: the path leads on to another node.
use njuoslab_l1_kmalloc_kfre.Base.{
  ℕ, ◌<◌, ◌≡◌, ◌≢◌, refl, List, [], ◌∷◌, ◌++◌, arith, All, ne→==, eq→==,
}
use njuoslab_l1_kmalloc_kfre.Machine.{State, ok}
use njuoslab_l1_kmalloc_kfre.Machine.Fields.{get_next-ok, set_next-ok}
use njuoslab_l1_kmalloc_kfre.Machine.Memory.{Mem, write, write-other}
use njuoslab_l1_kmalloc_kfre.Pmm.FreeList.{
  Region, IsRegion, Apart, Separate, Outside, Links, last_addr, Links-redirect, Links-append,
  Links-write, Separate-IsRegion,
}
use njuoslab_l1_kmalloc_kfre.Pmm.FreeList.Splice.{last-OffNodes, Links-last, last-pos}
use njuoslab_l1_kmalloc_kfre.Pmm.FreeHeap.{SamePages}
use njuoslab_l1_kmalloc_kfre.Pmm.PageAlloc.{relink}

-- The state in which the path over `xs` leads to `r`.
pub relinked : List Region → ℕ → State → State
relinked [] r s = record s { head = r }
relinked (x ∷ xs) r s = record s { mem = write s.mem (last_addr x.addr xs) r }

pub relink-relinked :
    (s : State) (xs : List Region) (at r : ℕ)
    → Links s.mem s.head xs at
    → All IsRegion xs
    → relink (last_addr 0 xs) at r s ≡ ok tt (relinked xs r s)
unfolding relink relinked
relink-relinked s [] at r c v = rw (eq→== _ _ c)
relink-relinked s (x ∷ xs) at r c v =
    let at_last = last_addr x.addr xs in
    let pos : 0 < at_last = last-pos x xs v in
    rw (
      ne→== at_last 0 (omega arith),
      get_next-ok at_last s pos,
      eq→== (s.mem at_last) at (Links-last s.mem s.head at x xs c),
      set_next-ok at_last s pos r,
    )

pub relinked-Links :
    (s : State) (xs zs : List Region) (q r : ℕ)
    → Separate xs
    → Links s.mem s.head xs q
    → Links s.mem r zs 0
    → All IsRegion zs
    → All (λ x. All (Apart x) zs) xs
    → Links (relinked xs r s).mem (relinked xs r s).head (xs ++ zs) 0
unfolding relinked
relinked-Links s [] zs q r sep c d v a = d
relinked-Links s (x ∷ xs) zs q r sep c d v a =
    let m : Mem = write s.mem (last_addr x.addr xs) r in
    Links-append m s.head r 0 (x ∷ xs) zs (Links-redirect s.mem s.head q r x xs sep c) (
      Links-write s.mem r 0 (last_addr x.addr xs) r zs
        (last-OffNodes x xs zs (Separate-IsRegion (x ∷ xs) sep) v a) d)

-- Nothing outside the regions of the list is written.
Outside-last :
    (b : ℕ) (x : Region) (xs : List Region)
    → All IsRegion (x ∷ xs)
    → All (Outside b) (x ∷ xs)
    → b ≢ last_addr x.addr xs
Outside-last b x [] (v, _) (o, _) = omega arith
Outside-last b x (k ∷ xs) (_, v) (_, o) = Outside-last b k xs v o

pub relinked-Outside :
    (s : State) (xs : List Region) (r b : ℕ)
    → All IsRegion xs
    → All (Outside b) xs
    → (relinked xs r s).mem b ≡ s.mem b
unfolding relinked
relinked-Outside s [] r b v o = refl
relinked-Outside s (x ∷ xs) r b v o =
    write-other s.mem (last_addr x.addr xs) r b (Outside-last b x xs v o)

pub relinked-SamePages : (s : State) (xs : List Region) (r : ℕ) → SamePages s (relinked xs r s)
unfolding relinked
relinked-SamePages s [] r = record { heads = refl; locks = refl }
relinked-SamePages s (x ∷ xs) r = record { heads = refl; locks = refl }
