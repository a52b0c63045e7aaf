-- ===== src/Base/Lists.antt =====
-- Lists measured and indexed by native numbers, membership as a test, and lists without repetition.
use Prim.Native.Nat.{ℕ, zero, suc, ◌+◌, ◌<◌}
use mathlib.Core.Path.{◌≡◌, refl, ap, subst, sym}
use mathlib.Core.Logic.{◌≢◌}
use mathlib.Core.Bool.{Bool, true, false, ◌||◌}
use mathlib.Core.Option.{Option, none, some}
use mathlib.Core.List.{List, [], ◌∷◌, ◌++◌, map}
use native.Mathlib.Omega.{arith}
use native.Mathlib.Decide.{ℕ_discrete}
use sasha_jakob.Base.Tests.{◌==◌, ==-refl, ==-ne, if◌then◌else◌}

module _ {ℓ} {A : Type ℓ} where
  abbrev pub length : List A → ℕ
  length [] = 0
  length (x ∷ xs) = suc (length xs)

  abbrev pub get_or : List A → ℕ → A → A
  get_or [] i d = d
  get_or (x ∷ xs) zero d = x
  get_or (x ∷ xs) (suc i) d = get_or xs i d

  abbrev pub get_elem? : List A → ℕ → Option A
  get_elem? [] i = none
  get_elem? (x ∷ xs) zero = some x
  get_elem? (x ∷ xs) (suc i) = get_elem? xs i

  -- A write out of bounds changes nothing.
  abbrev pub set : List A → ℕ → A → List A
  set [] i v = []
  set (x ∷ xs) zero v = v ∷ xs
  set (x ∷ xs) (suc i) v = x ∷ set xs i v

  abbrev pub replicate : ℕ → A → List A
  replicate zero a = []
  replicate (suc n) a = a ∷ replicate n a

  pub length-append : (xs ys : List A) → length (xs ++ ys) ≡ length xs + length ys
  length-append [] ys = omega arith
  length-append (x ∷ xs) ys = omega (arith, length-append xs ys)

pub length-map {ℓ κ} :
    {A : Type ℓ} {B : Type κ} (f : A → B) (xs : List A) → length (map f xs) ≡ length xs
length-map f [] = refl
length-map f (x ∷ xs) = omega (arith, length-map f xs)

module _ {ℓ} {A : Type ℓ} where
  pub length-set : (xs : List A) (i : ℕ) (v : A) → length (set xs i v) ≡ length xs
  length-set [] i v = refl
  length-set (x ∷ xs) zero v = refl
  length-set (x ∷ xs) (suc i) v = ap suc (length-set xs i v)

  pub get_elem?-set_self :
      (xs : List A) (i : ℕ) (v : A) → i < length xs → get_elem? (set xs i v) i ≡ some v
  get_elem?-set_self [] i v h = elim h [ ]
  get_elem?-set_self (x ∷ xs) zero v h = refl
  get_elem?-set_self (x ∷ xs) (suc i) v h = get_elem?-set_self xs i v (omega arith)

  pub get_elem?-set_ne :
      (xs : List A) (i j : ℕ) (v : A) → i ≢ j → get_elem? (set xs i v) j ≡ get_elem? xs j
  get_elem?-set_ne [] i j v h = refl
  get_elem?-set_ne (x ∷ xs) zero zero v h = absurd (h refl)
  get_elem?-set_ne (x ∷ xs) zero (suc j) v h = refl
  get_elem?-set_ne (x ∷ xs) (suc i) zero v h = refl
  get_elem?-set_ne (x ∷ xs) (suc i) (suc j) v h = get_elem?-set_ne xs i j v (λ e. h (ap suc e))

  pub set-get_elem? :
      (xs : List A) (i : ℕ) (v w : A) → get_elem? xs i ≡ some v → set (set xs i w) i v ≡ xs
  set-get_elem? [] i v w h = refl
  set-get_elem? (x ∷ xs) zero v w h = cc
  set-get_elem? (x ∷ xs) (suc i) v w h = ap (◌∷◌ x) (set-get_elem? xs i v w h)

  pub set-same : (xs : List A) (i : ℕ) (v : A) → get_elem? xs i ≡ some v → set xs i v ≡ xs
  set-same [] i v h = refl
  set-same (x ∷ xs) zero v h = cc
  set-same (x ∷ xs) (suc i) v h = ap (◌∷◌ x) (set-same xs i v h)

  -- An index that holds a value is within the list, and the other way round.
  pub get_elem?-lt : (xs : List A) (i : ℕ) (v : A) → get_elem? xs i ≡ some v → i < length xs
  get_elem?-lt [] i v h = cc
  get_elem?-lt (x ∷ xs) zero v h = omega arith
  get_elem?-lt (x ∷ xs) (suc i) v h = omega (arith, get_elem?-lt xs i v h)

  pub get_elem?-some : (xs : List A) (i : ℕ) → i < length xs → (v : A) × (get_elem? xs i ≡ some v)
  get_elem?-some [] i h = elim h [ ]
  get_elem?-some (x ∷ xs) zero h = (x, refl)
  get_elem?-some (x ∷ xs) (suc i) h = get_elem?-some xs i (omega arith)

  pub get_or-set_self :
      (xs : List A) (i : ℕ) (v d : A) → i < length xs → get_or (set xs i v) i d ≡ v
  get_or-set_self [] i v d h = elim h [ ]
  get_or-set_self (x ∷ xs) zero v d h = refl
  get_or-set_self (x ∷ xs) (suc i) v d h = get_or-set_self xs i v d (omega arith)

  pub get_or-set_ne :
      (xs : List A) (i j : ℕ) (v d : A) → i ≢ j → get_or (set xs i v) j d ≡ get_or xs j d
  get_or-set_ne [] i j v d h = refl
  get_or-set_ne (x ∷ xs) zero zero v d h = absurd (h refl)
  get_or-set_ne (x ∷ xs) zero (suc j) v d h = refl
  get_or-set_ne (x ∷ xs) (suc i) zero v d h = refl
  get_or-set_ne (x ∷ xs) (suc i) (suc j) v d h = get_or-set_ne xs i j v d (λ e. h (ap suc e))

abbrev pub has : ℕ → List ℕ → Bool
has a [] = false
has a (x ∷ xs) = (a == x) || has a xs

infix 40 ◌∈◌ ◌∉◌
abbrev pub ◌∈◌ : ℕ → List ℕ → Type 0
a ∈ xs = has a xs ≡ true

abbrev pub ◌∉◌ : ℕ → List ℕ → Type 0
a ∉ xs = has a xs ≡ false

-- No value occurs twice.
abbrev pub Distinct : List ℕ → Type 0
Distinct [] = Unit
Distinct (x ∷ xs) = (x ∉ xs) × Distinct xs

-- The last entry of the list `a ∷ xs`.
abbrev pub last : ℕ → List ℕ → ℕ
last a [] = a
last a (x ∷ xs) = last x xs

-- The first entry of the list `xs ++ b ∷ []`.
abbrev pub first : List ℕ → ℕ → ℕ
first [] b = b
first (x ∷ xs) b = x

pub first-mem : (xs : List ℕ) (b : ℕ) → first xs b ∈ (b ∷ xs)
first-mem [] b = ground arith
first-mem (x ∷ xs) b = ground arith

pub ne_of_mem : (a b : ℕ) (xs : List ℕ) → a ∈ xs → b ∉ xs → a ≢ b
ne_of_mem a b [] h k = cc
ne_of_mem a b (x ∷ xs) h k = ground (arith, ne_of_mem a b xs)

pub has-append : (a : ℕ) (xs ys : List ℕ) → has a (xs ++ ys) ≡ (has a xs || has a ys)
has-append a [] ys = refl
has-append a (x ∷ xs) ys = ground (arith, has-append a xs ys)

pub last-mem : (a : ℕ) (xs : List ℕ) → last a xs ∈ (a ∷ xs)
last-mem a [] = ground arith
last-mem a (x ∷ xs) = ground (arith, last-mem x xs)

pub Distinct-snoc : (n : ℕ) (xs : List ℕ) → Distinct xs → n ∉ xs → Distinct (xs ++ n ∷ [])
Distinct-snoc n [] d out = (refl, tt)
Distinct-snoc n (x ∷ xs) (new, d) out =
    (ground (arith, has-append x xs (n ∷ [])), Distinct-snoc n xs d (ground arith))

pub Distinct-remove :
    (n : ℕ) (ys zs : List ℕ) → Distinct (ys ++ n ∷ zs) → Distinct (ys ++ zs) × (n ∉ (ys ++ zs))
Distinct-remove n [] zs (new, d) = (d, new)
Distinct-remove n (y ∷ ys) zs (new, d) = (
  (ground (arith, has-append y ys (n ∷ zs), has-append y ys zs), (Distinct-remove n ys zs d).0),
  ground (arith, has-append y ys (n ∷ zs), (Distinct-remove n ys zs d).1),
)

-- The first occurrence is dropped.
abbrev pub erase : ℕ → List ℕ → List ℕ
erase n [] = []
erase n (x ∷ xs) = if n == x then xs else x ∷ erase n xs

-- An entry splits its list, and `erase` joins the two parts.
pub mem-split :
    (n : ℕ) (xs : List ℕ)
    → n ∈ xs
    → (ys : List ℕ) × (zs : List ℕ) × (xs ≡ ys ++ n ∷ zs) × (erase n xs ≡ ys ++ zs)
mem-split n [] h = cc
mem-split n (x ∷ xs) h = elim (ℕ_discrete n x) [
  | yes e ↦ ([], xs, rw e, rw (e, ==-refl x))
  | no ne ↦
      let (ys, zs, e, e') = mem-split n xs (ground arith) in
      (x ∷ ys, zs, ap (◌∷◌ x) e, rw (==-ne n x ne) (ap (◌∷◌ x) e'))
]

pub has-erase_ne : (m n : ℕ) (xs : List ℕ) → m ≢ n → has m (erase n xs) ≡ has m xs
has-erase_ne m n [] ne = refl
has-erase_ne m n (x ∷ xs) ne = ground (arith, has-erase_ne m n xs ne)

pub has-erase_self : (n : ℕ) (xs : List ℕ) → Distinct xs → n ∉ erase n xs
has-erase_self n [] d = refl
has-erase_self n (x ∷ xs) (out, d) = elim (ℕ_discrete n x) [
  | yes e ↦ rw (e, ==-refl x) out
  | no ne ↦ rw (==-ne n x ne) (rw (==-ne n x ne) (has-erase_self n xs d))
]

pub erase-snoc : (n : ℕ) (xs : List ℕ) → n ∉ xs → erase n (xs ++ n ∷ []) ≡ xs
erase-snoc n [] out = rw (==-refl n) refl
erase-snoc n (x ∷ xs) out = ground (arith, erase-snoc n xs)

-- What holds of each entry of a list that is written out.
abbrev pub All : (ℕ → Type 0) → List ℕ → Type 0
All P [] = Unit {0}
All P (x ∷ xs) = P x × All P xs

pub each_of : (P : ℕ → Type 0) (xs : List ℕ) → All P xs → (x : ℕ) → x ∈ xs → P x
each_of P [] all x i = absurd (ground (arith, i))
each_of P (y ∷ xs) (here, all) x i = elim (ℕ_discrete x y) [
  | yes e ↦ subst P (sym e) here
  | no ne ↦ each_of P xs all x (rw (==-ne x y ne) at i)
]
