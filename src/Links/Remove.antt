-- ===== src/Links/Remove.antt =====
-- `list_remove` and `pop` on a well-formed list.
use sasha_jakob.Base.{
  ℕ, ◌≡◌, refl, some, List, [], ◌∷◌, ◌++◌, arith, pos, Ends, length, length-append, has-append,
  Distinct-remove, last, last-mem, first, first-mem, ne_of_mem,
}
use sasha_jakob.Links.{Links, null, list_remove, pop}
use sasha_jakob.Links.Chain.{Chain-last, Chain-first, Chain-split, IsList, Spares}
use sasha_jakob.Links.Splice.{unsplice, Chain-unsplice}

module _ (s : Links) (l n : ℕ) where
  abbrev without : List ℕ → List ℕ → Links
  without ys zs = unsplice s l (last l ys) n (first zs l) (pos (length (ys ++ zs)))

  without-IsList :
      (ys zs : List ℕ) → IsList s l (ys ++ n ∷ zs) → IsList (without ys zs) l (ys ++ zs)
  without-IsList ys zs is =
      let facts = Distinct-remove n ys zs is.distinct in
      record {
        non_null = is.non_null;
        real = ground (arith, is.real, has-append null ys (n ∷ zs), has-append null ys zs);
        apart = ground (arith, is.apart, has-append l ys (n ∷ zs), has-append l ys zs);
        distinct = facts.0;
        chain =
            Chain-unsplice s l n (pos (length (ys ++ zs))) (last l ys) (first zs l) l ys zs l
              is.chain refl refl (ground (arith, facts.1, is.apart, has-append l ys (n ∷ zs)))
              (ground (arith, is.apart, has-append l ys (n ∷ zs)))
              (ground (arith, is.apart, has-append l ys (n ∷ zs), has-append l ys zs))
              (ground (arith, is.apart, has-append l ys (n ∷ zs), has-append l ys zs), facts.0);
        count = ground arith;
      }

  list_remove_run :
      (ys zs : List ℕ) → IsList s l (ys ++ n ∷ zs) → list_remove l n s ≡ some (tt, without ys zs)
  unfolding list_remove
  list_remove_run ys zs is =
      let (before, after) = Chain-split s l ys n zs l is.chain in
      ground (
        arith,
        is.real,
        is.apart,
        is.non_null,
        is.count,
        Chain-last s l ys n before,
        Chain-first s n zs l after,
        last-mem l ys,
        first-mem zs l,
        length-append ys (n ∷ zs),
        length-append ys zs,
        has-append null ys (n ∷ zs),
        has-append l ys (n ∷ zs),
        ne_of_mem (last l ys) null (l ∷ ys),
        ne_of_mem (first zs l) null (l ∷ zs),
      )

  without-Spares : (ys zs : List ℕ) → Spares s (without ys zs) (l ∷ (ys ++ n ∷ zs))
  without-Spares ys zs = record {
    same = λ x out. ground (
      arith,
      last-mem l ys,
      first-mem zs l,
      has-append x ys (n ∷ zs),
      ne_of_mem (last l ys) x (l ∷ ys),
      ne_of_mem (first zs l) x (l ∷ zs),
    );
    keeps =
        λ x h. record { non_null = h.non_null; has_next = ground arith; has_prev = ground arith };
  }

  -- `list_remove` takes a node of the list out of it, wherever it stands, and clears its pointers;
  -- it touches only the cells of the list.
  pub list_remove_lem :
      (ys zs : List ℕ)
      → IsList s l (ys ++ n ∷ zs)
      → Ends (list_remove l n s) λ _ s'.
        IsList s' l (ys ++ zs)
        × (s'.next n ≡ some null)
        × (s'.prev n ≡ some null)
        × Spares s s' (l ∷ (ys ++ n ∷ zs))
  list_remove_lem ys zs is = (
    tt,
    without ys zs,
    list_remove_run ys zs is,
    (without-IsList ys zs is, ground arith, ground arith, without-Spares ys zs),
  )

  -- A node that is in no list is left alone, and so is the list's count.
  pub list_remove_unlinked : s.next n ≡ some null → list_remove l n s ≡ some (tt, s)
  unfolding list_remove
  list_remove_unlinked e = ground arith

module _ (s : Links) (l : ℕ) where
  pop_run :
      (n : ℕ) (xs : List ℕ)
      → IsList s l (n ∷ xs)
      → pop l s ≡ some (n, unsplice s l l n (first xs l) (pos (length xs)))
  unfolding pop
  pop_run n xs is = ground (
    arith,
    is.chain,
    Chain-first s n xs l is.chain.1,
    is.apart,
    first-mem xs l,
    ne_of_mem (first xs l) n (l ∷ xs),
  )

  -- `pop` takes the first node out and returns it.
  pub pop_lem :
      (n : ℕ) (xs : List ℕ)
      → IsList s l (n ∷ xs)
      → Ends (pop l s) λ r s'.
        (r ≡ n)
        × IsList s' l xs
        × (s'.next n ≡ some null)
        × (s'.prev n ≡ some null)
        × Spares s s' (l ∷ n ∷ xs)
  pop_lem n xs is = (
    n,
    unsplice s l l n (first xs l) (pos (length xs)),
    pop_run n xs is,
    (refl, without-IsList s l n [] xs is, ground arith, ground arith, without-Spares s l n [] xs),
  )

  -- On an empty list `pop` returns NULL and changes nothing.
  pub pop-nil : IsList s l [] → pop l s ≡ some (null, s)
  unfolding pop
  pop-nil is = ground arith
