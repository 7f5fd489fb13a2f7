-- ===== src/Hdat/Memory.antt =====
-- The block of bytes that a chunk points to: memcpy, memset and loads, by offset in the block.
use mathlib.Core.Path.{ap₂}
use native.Mathlib.Nat.{add-zero, zero-add}
use sas_libclient.Base.{
  ℕ, zero, suc, ◌+◌, ◌-◌, ◌≤◌, ◌<◌, ◌≡◌, refl, ap, sym, ◌∙◌, ◌⊎◌, List, [], ◌∷◌, ◌&&◌, leb, ltb,
  if◌then◌else◌, length, get_or, arith, true, le→leb, lt→ltb, replicate, length-replicate, ◌++◌,
}

abbrev pub Memory : Type 0
Memory = ℕ → ℕ

unfoldable pub store : Memory → ℕ → List ℕ → Memory
store m o bs i = if leb o i && ltb i (o + length bs) then get_or bs (i - o) 0 else m i

unfoldable pub fill : Memory → ℕ → ℕ → ℕ → Memory
fill m o n c i = if leb o i && ltb i (o + n) then c else m i

unfoldable pub load : Memory → ℕ → ℕ → List ℕ
load m o zero = []
load m o (suc n) = m o ∷ load m (o + 1) n

pub length-load : (m : Memory) (o n : ℕ) → length (load m o n) ≡ n
unfolding load
length-load m o zero = refl
length-load m o (suc n) = ap suc (length-load m (o + 1) n)

-- The two memories hold the same bytes from `lo` up to `hi`.
abbrev pub Same : Memory → Memory → ℕ → ℕ → Type 0
Same m n lo hi = (i : ℕ) → lo ≤ i → i < hi → m i ≡ n i

pub load-Same : (m m' : Memory) (o n : ℕ) → Same m m' o (o + n) → load m o n ≡ load m' o n
unfolding load
load-Same m m' o zero h = refl
load-Same m m' o (suc n) h =
    ap₂ ◌∷◌ (h o (omega arith) (omega arith))
      (load-Same m m' (o + 1) n (λ i p q. h i (omega arith) (omega arith)))

-- A load gives the list that the bytes from `o` on spell.
load_spells :
    (m : Memory) (o : ℕ) (bs : List ℕ)
    → ((i : ℕ) → i < length bs → m (o + i) ≡ get_or bs i 0)
    → load m o (length bs) ≡ bs
unfolding load
load_spells m o [] h = refl
load_spells m o (b ∷ bs) h =
    ap₂ ◌∷◌ (rw add-zero at (h 0 (omega arith))) (load_spells m (o + 1) bs rest)
  where
    rest : (i : ℕ) → i < length bs → m (o + 1 + i) ≡ get_or bs i 0
    rest i l = let e : o + 1 + i ≡ o + suc i = omega arith in rw e (h (suc i) (omega arith))

pub store_inside :
    (m : Memory) (o : ℕ) (bs : List ℕ) (i : ℕ)
    → i < length bs
    → store m o bs (o + i) ≡ get_or bs i 0
unfolding store
store_inside m o bs i h =
    let e : o + i - o ≡ i = omega arith in
    let lo : leb o (o + i) ≡ true = le→leb o (o + i) (omega arith) in
    let hi : ltb (o + i) (o + length bs) ≡ true = lt→ltb _ _ (omega arith) in rw (lo, hi, e)

pub store_outside :
    (m : Memory) (o : ℕ) (bs : List ℕ) (i : ℕ)
    → (i < o) ⊎ (o + length bs ≤ i)
    → store m o bs i ≡ m i
unfolding store
store_outside m o bs i h = ground arith

pub fill_inside : (m : Memory) (o n c i : ℕ) → o ≤ i → i < o + n → fill m o n c i ≡ c
unfolding fill
fill_inside m o n c i p q = ground arith

pub fill_outside : (m : Memory) (o n c i : ℕ) → (i < o) ⊎ (o + n ≤ i) → fill m o n c i ≡ m i
unfolding fill
fill_outside m o n c i h = ground arith

-- What was stored is loaded.
pub load-store : (m : Memory) (o : ℕ) (bs : List ℕ) → load (store m o bs) o (length bs) ≡ bs
load-store m o bs = load_spells (store m o bs) o bs (store_inside m o bs)

pub load-append : (m : Memory) (o n k : ℕ) → load m o (n + k) ≡ load m o n ++ load m (o + n) k
unfolding load
load-append m o zero k = rw (zero-add, add-zero)
load-append m o (suc n) k =
    let e : suc n + k ≡ suc (n + k) = omega arith in
    let e' : o + suc n ≡ o + 1 + n = omega arith in
    rw (e, e') (ap (λ ys. m o ∷ ys) (load-append m (o + 1) n k))

pub load-fill : (m : Memory) (o n c k : ℕ) → k ≤ n → load (fill m o n c) o k ≡ replicate k c
load-fill m o n c k h =
    ap (load (fill m o n c) o) (sym (length-replicate k c))
    ∙ load_spells (fill m o n c) o (replicate k c) λ i l.
      let l' : i < k = rw length-replicate at l in
      fill_inside m o n c (o + i) (omega arith) (omega arith) ∙ sym (get_or-replicate k c i l')
  where
    get_or-replicate : (k c i : ℕ) → i < k → get_or (replicate k c) i 0 ≡ c
    get_or-replicate zero c i h = absurd (omega arith)
    get_or-replicate (suc k) c zero h = refl
    get_or-replicate (suc k) c (suc i) h = get_or-replicate k c i (omega arith)
