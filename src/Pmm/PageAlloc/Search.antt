-- ===== src/Pmm/PageAlloc/Search.antt =====
-- The traversal of `allockpage`: it stops at the first node that can hold a page.
use njuoslab_l1_kmalloc_kfre.Base.{
  ℕ, zero, suc, ◌+◌, ◌≤◌, ◌<◌, ◌≡◌, refl, true, false, List, [], ◌∷◌, ◌++◌, arith, All, length,
  ne→==,
}
use njuoslab_l1_kmalloc_kfre.Base.Words.{int_ge}
use njuoslab_l1_kmalloc_kfre.Machine.{State, ok, get_next, get_size}
use njuoslab_l1_kmalloc_kfre.Pmm.FreeList.{Region, IsRegion, Links, last_addr}
use njuoslab_l1_kmalloc_kfre.Pmm.PageAlloc.{page_size, find_first}

-- What a node of a path reads as.
module _ (s : State) (g : Region) (v : IsRegion g) where
  pub get_size-node : s.mem (g.addr + 8) ≡ g.size → get_size g.addr s ≡ ok g.size s
  unfolding get_size
  get_size-node e = rw (ne→== g.addr 0 (omega (arith, v.ne_null)), e)

  pub get_next-node : get_next g.addr s ≡ ok (s.mem g.addr) s
  unfolding get_next
  get_next-node = rw (ne→== g.addr 0 (omega (arith, v.ne_null)))

abbrev pub TooSmall : Region → Type 0
TooSmall g = g.size < page_size

int_ge-small : (n : ℕ) → n < page_size → int_ge n page_size ≡ false
int_ge-small n h = ground arith

int_ge-large : (n : ℕ) → page_size ≤ n → n < 2147483648 → int_ge n page_size ≡ true
int_ge-large n h lt = ground arith

module _ (s : State) where
  pub find_first-none :
      (k prenode h : ℕ) (gs : List Region)
      → Links s.mem h gs 0
      → All IsRegion gs
      → All TooSmall gs
      → length gs < k
      → find_first k prenode h s ≡ ok (last_addr prenode gs, 0) s
  unfolding find_first
  find_first-none zero prenode h gs c v t f = absurd (omega arith)
  find_first-none (suc k) prenode h [] c v t f = rw c refl
  find_first-none (suc k) prenode h (g ∷ gs) (e, n, c) (v, vs) (t, ts) f = rw e (
      rw
        (
          ne→== g.addr 0 (omega (arith, v.ne_null)),
          get_size-node s g v n,
          int_ge-small g.size t,
          get_next-node s g v,
        )
        (find_first-none k g.addr (s.mem g.addr) gs c vs ts (omega arith)))

  pub find_first-some :
      (k prenode h : ℕ) (xs : List Region) (g : Region) (ys : List Region)
      → Links s.mem h (xs ++ (g ∷ ys)) 0
      → All IsRegion (xs ++ (g ∷ ys))
      → All TooSmall xs
      → page_size ≤ g.size
      → length xs < k
      → find_first k prenode h s ≡ ok (last_addr prenode xs, g.addr) s
  unfolding find_first
  find_first-some zero prenode h xs g ys c v t big f = absurd (omega arith)
  find_first-some (suc k) prenode h [] g ys (e, n, c) (v, vs) t big f = rw e (
      rw (
        ne→== g.addr 0 (omega (arith, v.ne_null)),
        get_size-node s g v n,
        int_ge-large g.size big v.small,
      ))
  find_first-some (suc k) prenode h (x ∷ xs) g ys (e, n, c) (v, vs) (t, ts) big f = rw e (
      rw
        (
          ne→== x.addr 0 (omega (arith, v.ne_null)),
          get_size-node s x v n,
          int_ge-small x.size t,
          get_next-node s x v,
        )
        (find_first-some k x.addr (s.mem x.addr) xs g ys c vs ts big (omega arith)))
