-- ===== src/Links/Insert.antt =====
-- `insert_tail` and `insert_head` on a well-formed list.
use sasha_jakob.Base.{
  ℕ, suc, ◌≡◌, refl, some, List, [], ◌∷◌, ◌++◌, arith, pos, Ends, length, length-append, has-append,
  ◌∉◌, Distinct-snoc, Distinct, last, last-mem, first, first-mem, ne_of_mem,
}
use sasha_jakob.Links.{Links, null, insert_tail, insert_head}
use sasha_jakob.Links.Chain.{Chain, Chain-last, Chain-first, IsList, IsNode, Spares}
use sasha_jakob.Links.Splice.{splice, Chain-splice_end, Chain-splice_start}

module _ (s : Links) (l n : ℕ) where
  insert_tail_run :
      (xs : List ℕ)
      → IsList s l xs
      → IsNode s n
      → n ∉ (l ∷ xs)
      → insert_tail l n s ≡ some (tt, splice s l (last l xs) n l (pos (suc (length xs))))
  unfolding insert_tail
  insert_tail_run xs is node new =
      ground (arith, Chain-last s l xs l is.chain, last-mem l xs, ne_of_mem (last l xs) n (l ∷ xs))

  -- `insert_tail` puts a new node at the end, and touches only the cells of the node and of the
  -- list.
  pub insert_tail_lem :
      (xs : List ℕ)
      → IsList s l xs
      → IsNode s n
      → n ∉ (l ∷ xs)
      → Ends (insert_tail l n s) λ _ s'. IsList s' l (xs ++ n ∷ []) × Spares s s' (n ∷ l ∷ xs)
  insert_tail_lem xs is node new = (
    tt,
    splice s l (last l xs) n l (pos (suc (length xs))),
    insert_tail_run xs is node new,
    (
      record {
        non_null = is.non_null;
        real = ground (arith, node.non_null, is.real, has-append null xs (n ∷ []));
        apart = ground (arith, is.apart, has-append l xs (n ∷ []));
        distinct = Distinct-snoc n xs is.distinct (ground arith);
        chain =
            Chain-splice_end s l n (pos (suc (length xs))) (last l xs) l xs l is.chain refl new
              (ground arith) is.apart (is.apart, is.distinct);
        count = ground (arith, length-append xs (n ∷ []));
      },
      record {
        same = λ x out. ground (arith, last-mem l xs, ne_of_mem (last l xs) x (l ∷ xs));
        keeps = λ x h. record {
          non_null = h.non_null;
          has_next = ground arith;
          has_prev = ground arith;
        };
      },
    ),
  )

  head-Chain :
      (xs : List ℕ)
      → Chain s l xs l
      → n ∉ (l ∷ xs)
      → l ∉ xs
      → Distinct (l ∷ xs)
      → Chain (splice s l l n (first xs l) (pos (suc (length xs)))) l (n ∷ xs) l
  head-Chain [] c new out d =
      Chain-splice_end s l n (pos 1) l l [] l c refl new (ground arith) out d
  head-Chain (x ∷ xs) c new out d =
      Chain-splice_start s l n (pos (suc (suc (length xs)))) l x xs l c new (ground arith) out d

  insert_head_run :
      (xs : List ℕ)
      → IsList s l xs
      → IsNode s n
      → n ∉ (l ∷ xs)
      → insert_head l n s ≡ some (tt, splice s l l n (first xs l) (pos (suc (length xs))))
  unfolding insert_head
  insert_head_run xs is node new =
      ground
        (arith, Chain-first s l xs l is.chain, first-mem xs l, ne_of_mem (first xs l) n (l ∷ xs))

  -- `insert_head` puts a new node in front, and touches only the cells of the node and of the list.
  pub insert_head_lem :
      (xs : List ℕ)
      → IsList s l xs
      → IsNode s n
      → n ∉ (l ∷ xs)
      → Ends (insert_head l n s) λ _ s'. IsList s' l (n ∷ xs) × Spares s s' (n ∷ l ∷ xs)
  insert_head_lem xs is node new = (
    tt,
    splice s l l n (first xs l) (pos (suc (length xs))),
    insert_head_run xs is node new,
    (
      record {
        non_null = is.non_null;
        real = ground (arith, node.non_null, is.real);
        apart = ground (arith, is.apart);
        distinct = (ground arith, is.distinct);
        chain = head-Chain xs is.chain new is.apart (is.apart, is.distinct);
        count = ground arith;
      },
      record {
        same = λ x out. ground (arith, first-mem xs l, ne_of_mem (first xs l) x (l ∷ xs));
        keeps = λ x h. record {
          non_null = h.non_null;
          has_next = ground arith;
          has_prev = ground arith;
        };
      },
    ),
  )
