-- ===== src/Pmm/Kfree/Cleared.antt =====
-- A page while `kfree` works on it: the block has been zeroed, and its neighbours are looked for.
use njuoslab_l1_kmalloc_kfre.Base.{
  ℕ, ◌+◌, ◌*◌, ◌^◌, ◌<◌, ◌≡◌, ◌≢◌, ◌⊎◌, inl, inr, List, [], ◌∷◌, arith, All, ap, sym, ◌∙◌, refl,
  length, ◌++◌, if◌then◌else◌, ◌==◌, eq→==, ne→==,
}
use njuoslab_l1_kmalloc_kfre.Base.Words.{add64, sext, sext-small}
use njuoslab_l1_kmalloc_kfre.Machine.{State, zero_range}
use njuoslab_l1_kmalloc_kfre.Machine.Fields.{get_size-ok}
use njuoslab_l1_kmalloc_kfre.Machine.Memory.{Mem, clear, clear-outside}
use njuoslab_l1_kmalloc_kfre.Pmm.FreeList.{Region, IsRegion, Links, Separate-IsRegion}
use njuoslab_l1_kmalloc_kfre.Pmm.PageAlloc.{page_size}
use njuoslab_l1_kmalloc_kfre.Pmm.Kfree.{free_block, merge_after, push_block}
use njuoslab_l1_kmalloc_kfre.Pmm.Kfree.Neighbours.{
  after_of, before_of, before_of-from, neighbours-of,
}
use njuoslab_l1_kmalloc_kfre.Pmm.Kfree.Push.{
  InUse, kept-Links, kept-HasMagic, kept-size, cleared-Touches, first_free-at,
}
use njuoslab_l1_kmalloc_kfre.Pmm.Slab.{IsSlab, StartsAt}

-- The run does not end where the block begins.
abbrev pub EndsElsewhere : (ptr : ℕ) → Region → Type 0
EndsElsewhere ptr g = g.addr + g.size ≢ ptr

-- What the search before the block can end at: NULL, or a run that does not end at the block.
abbrev pub ClearBefore : Mem → (ptr p : ℕ) → Type 0
ClearBefore m ptr p =
    (p ≡ 0) ⊎ ((0 < p) × (m (p + 8) < 2 ^ 31) × (p + m (p + 8) < 2 ^ 64) × (p + m (p + 8) ≢ ptr))

pub runs-ClearBefore :
    (m : Mem) (ptr p : ℕ) (gs : List Region)
    → Links m p gs 0
    → All IsRegion gs
    → All (EndsElsewhere ptr) gs
    → All (λ g. ClearBefore m ptr g.addr) gs
runs-ClearBefore m ptr p [] c v a = tt
runs-ClearBefore m ptr p (g ∷ gs) (e, n, c) (v, vs) (a, rest) = (
  inr (
    v.ne_null,
    omega (arith, v.small),
    omega (arith, v.reach),
    λ q. a (ap (λ (t : ℕ). g.addr + t) (sym n) ∙ q),
  ),
  runs-ClearBefore m ptr (m g.addr) gs c vs rest,
)

-- Where the free list of a page begins.
pub record Begins (m : Mem) (ph size : ℕ) (gs : List Region) : Type 0 where
  pub first : ℕ
  pub at : ph + m (ph + 12) * size ≡ first
  pub links : Links m first gs 0
  pub within : first < ph + page_size

pub slab-Begins :
    (m : Mem) (ph size : ℕ) (xs : List Region) (a : Region) (ys : List Region)
    → IsSlab m ph size (xs ++ (a ∷ ys))
    → Begins m ph size (xs ++ (a ∷ ys))
slab-Begins m ph size [] a ys slab = record {
  first = a.addr;
  at = slab.start.0;
  links = slab.start.1;
  within = omega (arith, slab.runs.0.in_page, slab.separate.0.room);
}
slab-Begins m ph size (x ∷ xs) a ys slab = record {
  first = x.addr;
  at = slab.start.0;
  links = slab.start.1;
  within = omega (arith, slab.runs.0.in_page, slab.separate.0.room);
}

module _ (s : State) (ph size : ℕ) (gs : List Region) (ptr : ℕ)
    (u : InUse s.mem ph size gs ptr) where
  abbrev pub cleared : State
  cleared = record s { mem = clear s.mem ptr size }

  pub cleared-index : cleared.mem (ph + 12) ≡ s.mem (ph + 12)
  cleared-index =
      clear-outside s.mem ptr size (ph + 12) (omega (arith, u.run.behind_header, u.slab.least))

  cleared-StartsAt : StartsAt cleared.mem ph size gs
  cleared-StartsAt =
      starts gs u.slab.start
        (kept-Links s.mem cleared.mem ph size gs ptr u (cleared-Touches s.mem ph size ptr))
    where
      starts :
          (ks : List Region)
          → StartsAt s.mem ph size ks
          → ((p : ℕ) → Links s.mem p ks 0 → Links cleared.mem p ks 0)
          → StartsAt cleared.mem ph size ks
      starts [] e keep = cleared-index ∙ e
      starts (k ∷ ks) (e, c) keep = (ap (λ (t : ℕ). ph + t * size) cleared-index ∙ e, keep k.addr c)

  -- Zeroing the block leaves the page's free list.
  pub cleared-InUse : InUse cleared.mem ph size gs ptr
  cleared-InUse =
      let same = cleared-Touches s.mem ph size ptr in
      record {
        slab = record {
          ne_null = u.slab.ne_null;
          reach = u.slab.reach;
          least = u.slab.least;
          most = u.slab.most;
          unit = u.slab.unit;
          size_field = kept-size s.mem cleared.mem ph size gs ptr u same;
          start = cleared-StartsAt;
          separate = u.slab.separate;
          runs = u.slab.runs;
          magics = kept-HasMagic s.mem cleared.mem ph size gs ptr u same;
        };
        run = u.run;
        block = u.block;
        apart = u.apart;
      }

  -- `free_block` up to the choice between `merge_after` and `push_block`, where no run ends at the
  -- block.
  module _ (fuel : ℕ) (b : Begins s.mem ph size gs) (far : All (EndsElsewhere ptr) gs)
      (enough : length gs < fuel) where
    cleared-Links : Links cleared.mem b.first gs 0
    cleared-Links =
        kept-Links s.mem cleared.mem ph size gs ptr u (cleared-Touches s.mem ph size ptr) b.first
          b.links

    before : ℕ
    before = before_of ptr 0 gs

    before-ClearBefore : ClearBefore cleared.mem ptr before
    unfolding before
    before-ClearBefore = before_of-from (ClearBefore cleared.mem ptr) ptr 0 gs (inl refl) (
        runs-ClearBefore cleared.mem ptr b.first gs cleared-Links
          (Separate-IsRegion gs u.slab.separate) far)

    block_end : add64 ptr (sext size) ≡ ptr + size
    block_end =
        ap (λ (t : ℕ). add64 ptr t) (sext-small size (omega (arith, u.slab.most)))
        ∙ omega (arith, u.block.reach)

    pub free_block-step :
        free_block fuel ph ptr s
        ≡ (if (ptr + size) == after_of ptr 0 gs
              then merge_after fuel ph ptr (after_of ptr 0 gs)
              else push_block ph ptr)
            cleared
    unfolding free_block zero_range before
    free_block-step =
        let c = cleared-InUse in
        let near =
          neighbours-of cleared fuel ptr 0 0 b.first gs cleared-Links
            (Separate-IsRegion gs u.slab.separate) enough in
        let head =
          first_free-at cleared ph size (s.mem (ph + 12)) b.first u.slab.ne_null u.slab.reach
            c.slab.size_field cleared-index b.at b.within in
        let small = sext-small size (omega (arith, u.slab.most)) in
        elim before-ClearBefore [
          | inl none_before ↦ rw (
            get_size-ok ph s u.slab.ne_null,
            u.slab.size_field,
            small,
            head,
            near,
            eq→== before 0 none_before,
            get_size-ok ph cleared u.slab.ne_null,
            c.slab.size_field,
            block_end,
          )
          | inr (pos, lt, fits, ne) ↦
              let sum : add64 before (sext (cleared.mem (before + 8))) ≢ ptr = λ q. ne (
                omega (
                  arith,
                  sym q,
                  ap (λ (t : ℕ). add64 before t) (sext-small (cleared.mem (before + 8)) lt),
                )) in
              rw (
                get_size-ok ph s u.slab.ne_null,
                u.slab.size_field,
                small,
                head,
                near,
                ne→== before 0 (omega arith),
                get_size-ok before cleared pos,
                get_size-ok ph cleared u.slab.ne_null,
                c.slab.size_field,
                ne→== _ ptr sum,
                block_end,
              )
        ]
