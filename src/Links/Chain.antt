-- ===== src/Links/Chain.antt =====
-- What it means that cells form a circular list: a chain of matching `next` and `prev` pointers
-- from the sentinel through distinct nodes back to it.
use sasha_jakob.Base.{
  ℕ, ◌≡◌, ◌≢◌, true, some, is_some, List, [], ◌∷◌, arith, ◌∙◌, pos, length, ◌∈◌, ◌∉◌, Distinct,
  last, first, ◌++◌,
}
use sasha_jakob.Links.{Links, null}

-- `b` follows `a`.
abbrev pub Link : Links → ℕ → ℕ → Type 0
Link s a b = (s.next a ≡ some b) × (s.prev b ≡ some a)

-- From `a` the pointers lead through `xs` to `b`, and back.
abbrev pub Chain : Links → ℕ → List ℕ → ℕ → Type 0
Chain s a [] b = Link s a b
Chain s a (x ∷ xs) b = Link s a x × Chain s x xs b

pub record IsList (s : Links) (l : ℕ) (xs : List ℕ) : Type 0 where
  pub non_null : l ≢ null
  pub real : null ∉ xs
  pub apart : l ∉ xs
  pub distinct : Distinct xs
  pub chain : Chain s l xs l
  pub count : s.count l ≡ some (pos (length xs))

-- The cells of a node are allocated.
pub record IsNode (s : Links) (n : ℕ) : Type 0 where
  pub non_null : n ≢ null
  pub has_next : is_some (s.next n) ≡ true
  pub has_prev : is_some (s.prev n) ≡ true

-- Nothing changes but at the addresses `xs`, and no node is given back.
pub record Spares (s s' : Links) (xs : List ℕ) : Type 0 where
  pub same :
      (x : ℕ) → x ∉ xs → (s'.next x ≡ s.next x) × (s'.prev x ≡ s.prev x) × (s'.count x ≡ s.count x)
  pub keeps : (x : ℕ) → IsNode s x → IsNode s' x

module _ (s : Links) where
  pub Chain-last : (a : ℕ) (xs : List ℕ) (b : ℕ) → Chain s a xs b → Link s (last a xs) b
  Chain-last a [] b c = c
  Chain-last a (x ∷ xs) b (_, c) = Chain-last x xs b c

  pub Chain-first : (a : ℕ) (xs : List ℕ) (b : ℕ) → Chain s a xs b → Link s a (first xs b)
  Chain-first a [] b c = c
  Chain-first a (x ∷ xs) b (k, _) = k

  pub Chain-split :
      (a : ℕ) (xs : List ℕ) (x : ℕ) (ys : List ℕ) (b : ℕ)
      → Chain s a (xs ++ x ∷ ys) b
      → Chain s a xs x × Chain s x ys b
  Chain-split a [] x ys b c = c
  Chain-split a (y ∷ xs) x ys b (k, c) =
      let (front, back) = Chain-split y xs x ys b c in ((k, front), back)

  -- A chain survives any change that spares the `next` fields of all but its end, and the `prev`
  -- fields of all but its start.
  pub Chain-frame :
      (s' : Links) (a : ℕ) (xs : List ℕ) (b : ℕ)
      → Chain s a xs b
      → ((x : ℕ) → x ∈ (a ∷ xs) → s'.next x ≡ s.next x)
      → ((x : ℕ) → x ∈ (b ∷ xs) → s'.prev x ≡ s.prev x)
      → Chain s' a xs b
  Chain-frame s' a [] b (n, p) same_next same_prev =
      (same_next a (ground arith) ∙ n, same_prev b (ground arith) ∙ p)
  Chain-frame s' a (x ∷ xs) b ((n, p), c) same_next same_prev = (
    (same_next a (ground arith) ∙ n, same_prev x (ground arith) ∙ p),
    Chain-frame s' x xs b c (λ y h. same_next y (ground arith)) (λ y h. same_prev y (ground arith)),
  )

pub IsList-frame :
    {s s' : Links} {l : ℕ} {xs : List ℕ}
    → IsList s l xs
    → ((x : ℕ) → x ∈ (l ∷ xs) → s'.next x ≡ s.next x)
    → ((x : ℕ) → x ∈ (l ∷ xs) → s'.prev x ≡ s.prev x)
    → s'.count l ≡ s.count l
    → IsList s' l xs
IsList-frame {s} {s'} {l} {xs} is same_next same_prev same_count = record {
  non_null = is.non_null;
  real = is.real;
  apart = is.apart;
  distinct = is.distinct;
  chain = Chain-frame s s' l xs l is.chain same_next same_prev;
  count = same_count ∙ is.count;
}

pub IsList-Spares :
    {s s' : Links} {l : ℕ} {xs : List ℕ} (touched : List ℕ)
    → IsList s l xs
    → Spares s s' touched
    → ((x : ℕ) → x ∈ (l ∷ xs) → x ∉ touched)
    → IsList s' l xs
IsList-Spares {l} touched is same away =
    IsList-frame is (λ x h. (same.same x (away x h)).0) (λ x h. (same.same x (away x h)).1)
      (same.same l (away l (ground arith))).2
