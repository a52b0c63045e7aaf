-- ===== src/Links/Splice.antt =====
-- The two changes that the list operations make to the pointers: a node is put between two
-- neighbours, or taken from between them.
use sasha_jakob.Base.{
  ℕ, ◌≡◌, ◌≢◌, List, [], ◌∷◌, ◌++◌, arith, ℤ, ◌∉◌, Distinct, last, last-mem, first, first-mem,
  has-append, ne_of_mem,
}
use sasha_jakob.Links.{Links, null, put}
use sasha_jakob.Links.Chain.{Chain, Chain-frame}

-- `n` goes between `a` and `b`, and `l` counts `c`.
abbrev pub splice : Links → (l a n b : ℕ) → ℤ → Links
splice s l a n b c = record {
  next = put (put s.next n b) a n;
  prev = put (put s.prev n a) b n;
  count = put s.count l c;
}

-- `n` goes from between `a` and `b`, and `l` counts `c`.
abbrev pub unsplice : Links → (l a n b : ℕ) → ℤ → Links
unsplice s l a n b c = record {
  next = put (put s.next a b) n null;
  prev = put (put s.prev b a) n null;
  count = put s.count l c;
}

module _ (s : Links) (l n : ℕ) (c : ℤ) where
  pub Chain-splice_end :
      (e a : ℕ) (xs : List ℕ) (b : ℕ)
      → Chain s a xs b
      → e ≡ last a xs
      → n ∉ (a ∷ xs)
      → n ≢ b
      → b ∉ xs
      → Distinct (a ∷ xs)
      → Chain (splice s l e n b c) a (xs ++ n ∷ []) b
  Chain-splice_end e a [] b k at new ne out d = ground arith
  Chain-splice_end e a (x ∷ xs) b (k, ks) at new ne out (da, d) = (
    ground (arith, last-mem x xs),
    Chain-splice_end e x xs b ks at (ground arith) ne (ground arith) d,
  )

  pub Chain-splice_start :
      (a : ℕ) (x : ℕ) (xs : List ℕ) (b : ℕ)
      → Chain s a (x ∷ xs) b
      → n ∉ (a ∷ x ∷ xs)
      → n ≢ b
      → b ∉ (x ∷ xs)
      → Distinct (a ∷ x ∷ xs)
      → Chain (splice s l a n x c) a (n ∷ x ∷ xs) b
  Chain-splice_start a x xs b (k, ks) new ne out (da, d) = (
    ground arith,
    (
      ground arith,
      Chain-frame s (splice s l a n x c) x xs b ks (λ y h. ground (arith, ne_of_mem y a (x ∷ xs)))
          (λ y h. ground (arith, ne_of_mem y x xs)),
    ),
  )

  Chain-unsplice-first :
      (a : ℕ) (zs : List ℕ) (b : ℕ)
      → Chain s a (n ∷ zs) b
      → n ∉ (a ∷ zs)
      → n ≢ b
      → b ∉ zs
      → Distinct (a ∷ zs)
      → Chain (unsplice s l a n (first zs b) c) a zs b
  Chain-unsplice-first a [] b k new ne out d = ground arith
  Chain-unsplice-first a (z ∷ zs) b (k, (k', ks)) new ne out (da, (dz, d)) = (
    ground arith,
    Chain-frame s (unsplice s l a n z c) z zs b ks
        (λ y h. ground (arith, ne_of_mem y a (z ∷ zs), ne_of_mem y n (z ∷ zs)))
        (λ y h. ground (arith, ne_of_mem y z zs, ne_of_mem y n zs)),
  )

  pub Chain-unsplice :
      (p q a : ℕ) (ys zs : List ℕ) (b : ℕ)
      → Chain s a (ys ++ n ∷ zs) b
      → p ≡ last a ys
      → q ≡ first zs b
      → n ∉ (a ∷ (ys ++ zs))
      → n ≢ b
      → b ∉ (ys ++ zs)
      → Distinct (a ∷ (ys ++ zs))
      → Chain (unsplice s l p n q c) a (ys ++ zs) b
  Chain-unsplice p q a [] zs b k at to new ne out d =
      rw (at, to) (Chain-unsplice-first a zs b k new ne out d)
  Chain-unsplice p q a (y ∷ ys) zs b (k, ks) at to new ne out (da, (dy, d)) = (
    ground (
      arith,
      last-mem y ys,
      first-mem zs b,
      has-append a ys zs,
      has-append y ys zs,
      ne_of_mem p a (y ∷ ys),
      ne_of_mem q y (b ∷ zs),
    ),
    Chain-unsplice p q y ys zs b ks at to (ground arith) ne (ground arith) (dy, d),
  )
