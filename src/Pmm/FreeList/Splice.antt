-- ===== src/Pmm/FreeList/Splice.antt =====
-- A region in the middle of a free list: its neighbours, and what takes its place.
use njuoslab_l1_kmalloc_kfre.Base.{ℕ, ◌+◌, ◌≤◌, ◌<◌, ◌≡◌, List, [], ◌∷◌, ◌++◌, arith, All}
use njuoslab_l1_kmalloc_kfre.Machine.Memory.{Mem}
use njuoslab_l1_kmalloc_kfre.Pmm.FreeList.{
  Region, IsRegion, Apart, OffNode, Separate, Links, last_addr,
}

module _ {ℓ} {A : Type ℓ} where
  pub All-split {κ} :
      (P : A → Type κ) (xs : List A) (g : A) (ys : List A)
      → All P (xs ++ (g ∷ ys))
      → All P xs × P g × All P ys
  All-split P [] g ys (a, as') = (tt, a, as')
  All-split P (x ∷ xs) g ys (a, as') = let (b, c, d) = All-split P xs g ys as' in ((a, b), c, d)

  pub All-join {κ} : (P : A → Type κ) (xs ys : List A) → All P xs → All P ys → All P (xs ++ ys)
  All-join P [] ys a b = b
  All-join P (x ∷ xs) ys (a, as') b = (a, All-join P xs ys as' b)

  pub All-map {κ λ'} :
      (P : A → Type κ) (Q : A → Type λ') (xs : List A) → ((x : A) → P x → Q x) → All P xs → All Q xs
  All-map P Q [] f a = tt
  All-map P Q (x ∷ xs) f (a, as') = (f x a, All-map P Q xs f as')

-- What a list of separate regions says of one of them.
pub record Parts (xs : List Region) (g : Region) (ys : List Region) : Type 0 where
  pub front : Separate xs
  pub here : IsRegion g
  pub back : Separate ys
  pub before : All (Apart g) xs
  pub behind : All (Apart g) ys
  pub across : All (λ x. All (Apart x) ys) xs

pub Separate-Parts :
    (xs : List Region) (g : Region) (ys : List Region) → Separate (xs ++ (g ∷ ys)) → Parts xs g ys
Separate-Parts [] g ys (v, a, s) = record {
  front = tt;
  here = v;
  back = s;
  before = tt;
  behind = a;
  across = tt;
}
Separate-Parts (x ∷ xs) g ys (v, a, s) =
    let p = Separate-Parts xs g ys s in
    let (f, h, b) = All-split (Apart x) xs g ys a in
    record {
      front = (v, f, p.front);
      here = p.here;
      back = p.back;
      before = (omega arith, p.before);
      behind = p.behind;
      across = (b, p.across);
    }

pub Parts-Separate :
    (xs : List Region) (g : Region) (ys : List Region) → Parts xs g ys → Separate (xs ++ (g ∷ ys))
Parts-Separate [] g ys p = (p.here, p.behind, p.back)
Parts-Separate (x ∷ xs) g ys p =
    let (v, f, s) = p.front in
    let rest : Parts xs g ys = record {
      front = s;
      here = p.here;
      back = p.back;
      before = p.before.1;
      behind = p.behind;
      across = p.across.1;
    } in
    (
      v,
      All-join (Apart x) xs (g ∷ ys) f (omega (arith, p.before.0), p.across.0),
      Parts-Separate xs g ys rest,
    )

pub Separate-remove :
    (xs : List Region) (g : Region) (ys : List Region) → Parts xs g ys → Separate (xs ++ ys)
Separate-remove [] g ys p = p.back
Separate-remove (x ∷ xs) g ys p =
    let (v, f, s) = p.front in
    let rest : Parts xs g ys = record {
      front = s;
      here = p.here;
      back = p.back;
      before = p.before.1;
      behind = p.behind;
      across = p.across.1;
    } in
    (v, All-join (Apart x) xs ys f p.across.0, Separate-remove xs g ys rest)

-- Part of the region `g` may stand in its place.
pub Parts-shrink :
    (xs : List Region) (g k : Region) (ys : List Region)
    → Parts xs g ys
    → IsRegion k
    → g.addr ≤ k.addr
    → k.addr + k.size ≤ g.addr + g.size
    → Parts xs k ys
Parts-shrink xs g k ys p v lo hi = record {
  front = p.front;
  here = v;
  back = p.back;
  before = All-map (Apart g) (Apart k) xs (λ x a. omega arith) p.before;
  behind = All-map (Apart g) (Apart k) ys (λ x a. omega arith) p.behind;
  across = p.across;
}

-- The last node before `g` is on no node behind it.
pub last-OffNodes :
    (x : Region) (xs ys : List Region)
    → All IsRegion (x ∷ xs)
    → All IsRegion ys
    → All (λ z. All (Apart z) ys) (x ∷ xs)
    → All (OffNode (last_addr x.addr xs)) ys
last-OffNodes x [] [] v w a = tt
last-OffNodes x [] (y ∷ ys) v (w, ws) ((a, as'), _) =
    (omega (arith, v.0.room), last-OffNodes x [] ys v ws (as', tt))
last-OffNodes x (k ∷ xs) ys (_, v) w (_, a) = last-OffNodes k xs ys v w a

-- The last link leads to the end of the path.
pub Links-last :
    (m : Mem) (p q : ℕ) (x : Region) (xs : List Region)
    → Links m p (x ∷ xs) q
    → m (last_addr x.addr xs) ≡ q
Links-last m p q x [] (e, n, c) = c
Links-last m p q x (k ∷ xs) (e, n, c) = Links-last m (m x.addr) q k xs c

pub last-pos : (x : Region) (xs : List Region) → All IsRegion (x ∷ xs) → 0 < last_addr x.addr xs
last-pos x [] (v, _) = v.ne_null
last-pos x (k ∷ xs) (_, v) = last-pos k xs v

-- The regions before `g` are apart from `g` and from all behind it.
pub Parts-across :
    (xs : List Region) (g : Region) (ys : List Region)
    → Parts xs g ys
    → All (λ x. All (Apart x) (g ∷ ys)) xs
Parts-across [] g ys p = tt
Parts-across (x ∷ xs) g ys p =
    let rest : Parts xs g ys = record {
      front = p.front.2;
      here = p.here;
      back = p.back;
      before = p.before.1;
      behind = p.behind;
      across = p.across.1;
    } in
    ((omega (arith, p.before.0), p.across.0), Parts-across xs g ys rest)

-- A property of all addresses of a list, and of what stands for none, holds of the last.
pub last-from :
    (P : ℕ → Type 0) (d : ℕ) (gs : List Region) → P d → All (λ g. P g.addr) gs → P (last_addr d gs)
last-from P d [] p a = p
last-from P d (g ∷ gs) p (q, a) = last-from P g.addr gs q a
