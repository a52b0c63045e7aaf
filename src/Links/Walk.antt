-- ===== src/Links/Walk.antt =====
-- The list operations that walk or test a well-formed list, and the making of one.
use sasha_jakob.Base.{
  ℕ, suc, is_some, first, ◌<◌, ◌≡◌, ◌≢◌, refl, some, List, [], ◌∷◌, arith, ◌==◌, if◌then◌else◌, pos,
  Ends, length, has, ◌∉◌, zero, true,
}
use sasha_jakob.Links.{
  Links, null, put, list_init, create_list, list_contains, contains_loop, list_is_empty, peek,
  clear_list, clear_loop,
}
use sasha_jakob.Links.Chain.{Chain, Chain-first, IsList, Spares}
use sasha_jakob.Links.Remove.{pop_lem}

-- What `list_init` leaves at allocated memory is the empty list.
pub list_init-IsList :
    (s : Links) (l : ℕ)
    → l ≢ null
    → is_some (s.next l) ≡ true
    → is_some (s.prev l) ≡ true
    → is_some (s.count l) ≡ true
    → Ends (list_init l s) λ _ s'. IsList s' l [] × Spares s s' (l ∷ [])
unfolding list_init
list_init-IsList s l nn a b c = (
  tt,
  record { next = put s.next l l; prev = put s.prev l l; count = put s.count l (pos 0) },
  ground arith,
  (
    record {
      non_null = nn;
      real = refl;
      apart = refl;
      distinct = tt;
      chain = ground arith;
      count = ground arith;
    },
    record {
      same = λ x out. ground arith;
      keeps =
          λ x h. record { non_null = h.non_null; has_next = ground arith; has_prev = ground arith };
    },
  ),
)

-- `create_list` returns an empty list where `malloc` gives it memory.
pub create_list_lem :
    (s : Links) (fresh : ℕ)
    → fresh ≢ null
    → Ends (create_list fresh s) λ r s'. (r ≡ fresh) × IsList s' r [] × Spares s s' (fresh ∷ [])
unfolding create_list
create_list_lem s fresh nn = (
  fresh,
  record {
    next = put (put s.next fresh null) fresh fresh;
    prev = put (put s.prev fresh null) fresh fresh;
    count = put (put s.count fresh (pos 0)) fresh (pos 0);
  },
  ground arith,
  (
    refl,
    record {
      non_null = nn;
      real = refl;
      apart = refl;
      distinct = tt;
      chain = ground arith;
      count = ground arith;
    },
    record {
      same = λ x out. ground arith;
      keeps =
          λ x h. record { non_null = h.non_null; has_next = ground arith; has_prev = ground arith };
    },
  ),
)

module _ (s : Links) (l n : ℕ) where
  contains_loop_run :
      (fuel a : ℕ) (xs : List ℕ)
      → length xs < fuel
      → Chain s a xs l
      → l ∉ xs
      → contains_loop fuel l n (first xs l) s ≡ some (if has n xs then pos 1 else pos 0, s)
  unfolding contains_loop
  contains_loop_run zero a xs f c out = elim f [ ]
  contains_loop_run (suc fuel) a [] f c out = ground arith
  contains_loop_run (suc fuel) a (x ∷ xs) f (k, c) out =
      ground (arith, Chain-first s x xs l c, contains_loop_run fuel x xs (omega arith) c)

  -- `list_contains` comes back with 1 exactly if the node is in the list, and changes nothing.
  list_contains_lem :
      (xs : List ℕ)
      → IsList s l xs
      → n ≢ null
      → list_contains l n s ≡ some (if has n xs then pos 1 else pos 0, s)
  unfolding list_contains
  list_contains_lem xs is nn = ground (
    arith,
    Chain-first s l xs l is.chain,
    contains_loop_run (suc (length xs)) l xs (omega arith) is.chain is.apart,
  )

module _ (l : ℕ) where
  -- `list_is_empty` is the test that it is named for, and `peek` is the first node, or NULL.
  pub list_is_empty-peek :
      (s : Links) (xs : List ℕ)
      → IsList s l xs
      → (list_is_empty l s ≡ some (if length xs == 0 then pos 1 else pos 0, s))
        × (peek l s ≡ some (first xs null, s))
  unfolding list_is_empty peek
  list_is_empty-peek s [] is = (ground arith, ground arith)
  list_is_empty-peek s (x ∷ xs) is = (ground arith, ground (arith, is.chain))

  clear_loop_run :
      (xs : List ℕ) (fuel : ℕ) (s : Links)
      → length xs < fuel
      → IsList s l xs
      → Ends (clear_loop fuel l s) λ r s'. (r ≡ pos 0) × IsList s' l [] × Spares s s' (l ∷ xs)
  unfolding clear_loop
  clear_loop_run xs zero s f is = elim f [ ]
  clear_loop_run [] (suc fuel) s f is = (
    pos 0,
    s,
    ground arith,
    (refl, is, record { same = λ x out. (refl, refl, refl); keeps = λ x h. h }),
  )
  clear_loop_run (x ∷ xs) (suc fuel) s f is =
      let (r, s1, e, (at, is1, _, _, same1)) = pop_lem s l x xs is in
      let (r', s2, e', (done, is2, same2)) = clear_loop_run xs fuel s1 (omega arith) is1 in
      (
        r',
        s2,
        ground arith,
        (
          done,
          is2,
          record {
            same = λ y out. ground (arith, same1.same y, same2.same y);
            keeps = λ y h. same2.keeps y (same1.keeps y h);
          },
        ),
      )

  -- `clear_list` comes to an end with the list empty, and touches no other list's cells.
  clear_list_lem :
      (xs : List ℕ) (s : Links)
      → IsList s l xs
      → Ends (clear_list l s) λ r s'. (r ≡ pos 0) × IsList s' l [] × Spares s s' (l ∷ xs)
  unfolding clear_list
  clear_list_lem xs s is =
      let (r, s', e, post) = clear_loop_run xs (suc (length xs)) s (omega arith) is in
      (r, s', ground arith, post)
