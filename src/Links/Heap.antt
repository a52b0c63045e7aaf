-- ===== src/Links/Heap.antt =====
-- All lists of the memory at once: they are well formed, and share no cell.
use sasha_jakob.Base.{
  ℕ, ◌≡◌, ◌≢◌, List, [], ◌∷◌, ◌++◌, arith, ◌==◌, if◌then◌else◌, has, has-append, ◌∈◌, ◌∉◌, Ends,
  ne_of_mem, ℕ_discrete, ==-refl, ==-ne, Bool-cases, inl, inr, sym, ◌∙◌, ◌⊎◌, ap, subst,
}
use sasha_jakob.Links.{Links, insert_tail, insert_head, list_remove, pop}
use sasha_jakob.Links.Chain.{IsList, IsNode, Spares, IsList-Spares}
use sasha_jakob.Links.Insert.{insert_tail_lem, insert_head_lem}
use sasha_jakob.Links.Remove.{list_remove_lem, pop_lem}

-- What each list holds, with the list `l` set to `xs`.
abbrev pub update : (ℕ → List ℕ) → ℕ → List ℕ → ℕ → List ℕ
update c l xs x = if x == l then xs else c x

-- The lists at `lists` hold what `c` says, and no node stands in two of them.
pub record Holds (s : Links) (lists : List ℕ) (c : ℕ → List ℕ) : Type 0 where
  pub each : (l : ℕ) → l ∈ lists → IsList s l (c l)
  pub outside : (l m : ℕ) → l ∈ lists → m ∈ lists → l ∉ c m
  pub apart : (l m x : ℕ) → l ∈ lists → m ∈ lists → l ≢ m → x ∈ c l → x ∉ c m

-- `n` is in none of the lists, and heads none.
abbrev pub IsFree : List ℕ → (ℕ → List ℕ) → ℕ → Type 0
IsFree lists c n = (n ∉ lists) × ((l : ℕ) → l ∈ lists → n ∉ c l)

-- One list changes, and its entries after the change were there before or in no list.
module _ {s s' : Links} {lists : List ℕ} {c : ℕ → List ℕ} (l : ℕ) (xs touched : List ℕ)
    (h : Holds s lists c) (is : IsList s' l xs) (same : Spares s s' touched)
    (away : (m x : ℕ) → m ∈ lists → m ≢ l → x ∈ (m ∷ c m) → x ∉ touched)
    (new : (m x : ℕ) → m ∈ lists → m ≢ l → x ∈ xs → x ∉ (m ∷ c m)) where
  change-each : (m : ℕ) → m ∈ lists → IsList s' m (update c l xs m)
  change-each m i = elim (ℕ_discrete m l) [
    | yes e ↦ rw (e, ==-refl l) is
    | no ne ↦ rw (==-ne m l ne) (IsList-Spares touched (h.each m i) same (λ x hx. away m x i ne hx))
  ]

  head-out : (p : ℕ) → p ∈ lists → p ∉ xs
  head-out p i = elim (ℕ_discrete p l) [
    | yes e ↦ rw e is.apart
    | no ne ↦ elim (Bool-cases (has p xs)) [
      | inl there ↦ absurd (ground (arith, new p p i ne there))
      | inr out ↦ out
    ]
  ]

  change-outside : (p m : ℕ) → p ∈ lists → m ∈ lists → p ∉ update c l xs m
  change-outside p m i j = elim (ℕ_discrete m l) [
    | yes e ↦ rw (e, ==-refl l) (head-out p i)
    | no ne ↦ rw (==-ne m l ne) (h.outside p m i j)
  ]

  other-out : (p x : ℕ) → p ∈ lists → p ≢ l → x ∈ c p → x ∉ xs
  other-out p x i ne k = elim (Bool-cases (has x xs)) [
    | inl there ↦ absurd (ground (arith, new p x i ne there))
    | inr out ↦ out
  ]

  change-apart :
      (p m x : ℕ) → p ∈ lists → m ∈ lists → p ≢ m → x ∈ update c l xs p → x ∉ update c l xs m
  change-apart p m x i j ne k = elim (ℕ_discrete p l) [
    | yes e ↦
        let mine : x ∈ xs = rw (e, ==-refl l) at k in
        let other : m ≢ l = λ e'. ne (e ∙ sym e') in
        rw (==-ne m l other) (ground (arith, new m x j other mine))
    | no pl ↦
        let mine : x ∈ c p = rw (==-ne p l pl) at k in
        elim (ℕ_discrete m l) [
          | yes e ↦ rw (e, ==-refl l) (other-out p x i pl mine)
          | no ml ↦ rw (==-ne m l ml) (h.apart p m x i j ne mine)
        ]
  ]

  Holds-change : Holds s' lists (update c l xs)
  Holds-change = record { each = change-each; outside = change-outside; apart = change-apart }

module _ {s : Links} {lists : List ℕ} {c : ℕ → List ℕ} (h : Holds s lists c) (l : ℕ)
    (at : l ∈ lists) where
  -- A list spares the others, whatever cells it touches of its own and of a free node.
  others-spared :
      (n : ℕ) → IsFree lists c n → (m x : ℕ) → m ∈ lists → m ≢ l → x ∈ (m ∷ c m) → x ∉ (n ∷ l ∷ c l)
  others-spared n (head, free) m x i ne k = elim (ℕ_discrete x m) [
    | yes e ↦
        ground (arith, ne_of_mem m n lists i head, h.outside m l i at, ap (λ y. has y (c l)) e)
    | no xm ↦
        let mine : x ∈ c m = ground arith in
        ground (
          arith,
          ne_of_mem x n (c m) mine (free m i),
          ne_of_mem x l (c m) mine (h.outside l m at i),
          h.apart m l x i at ne mine,
        )
  ]

  -- So does a list that touches only its own cells.
  own-spared : (m x : ℕ) → m ∈ lists → m ≢ l → x ∈ (m ∷ c m) → x ∉ (l ∷ c l)
  own-spared m x i ne k = elim (ℕ_discrete x m) [
    | yes e ↦ ground (arith, h.outside m l i at, ap (λ y. has y (c l)) e)
    | no xm ↦
        let mine : x ∈ c m = ground arith in
        ground (arith, ne_of_mem x l (c m) mine (h.outside l m at i), h.apart m l x i at ne mine)
  ]

  -- What stays in the list, and a free node, are in no other list.
  still-apart : (m x : ℕ) → m ∈ lists → m ≢ l → x ∈ c l → x ∉ (m ∷ c m)
  still-apart m x i ne k =
      ground
        (arith, ne_of_mem x m (c l) k (h.outside m l i at), h.apart l m x at i (λ e. ne (sym e)) k)

  free-apart : (n : ℕ) → IsFree lists c n → (m x : ℕ) → m ∈ lists → x ≡ n → x ∉ (m ∷ c m)
  free-apart n (head, free) m x i e =
      ground (arith, ne_of_mem m n lists i head, free m i, ap (λ y. has y (c m)) e)

  insert-apart :
      (n : ℕ) (xs : List ℕ)
      → IsFree lists c n
      → ((x : ℕ) → x ∈ xs → (x ≡ n) ⊎ (x ∈ c l))
      → (m x : ℕ) → m ∈ lists
      → m ≢ l
      → x ∈ xs
      → x ∉ (m ∷ c m)
  insert-apart n xs f cover m x i ne k = elim (cover x k) [
    | inl e ↦ free-apart n f m x i e
    | inr old ↦ still-apart m x i ne old
  ]

  new-node : (n : ℕ) → IsFree lists c n → n ∉ (l ∷ c l)
  new-node n (head, free) = ground (arith, ne_of_mem l n lists at head, free l at)

  -- Where all lists are well formed and apart, `insert_tail` of a free node appends it to its list
  -- and leaves every other list as it is.
  pub insert_tail-Holds :
      (n : ℕ)
      → IsNode s n
      → IsFree lists c n
      → Ends
          (insert_tail l n s)
          λ _ s'. Holds s' lists (update c l (c l ++ n ∷ [])) × ((x : ℕ) → IsNode s x → IsNode s' x)
  insert_tail-Holds n node f =
      let (u, s', run, (is, same)) =
        insert_tail_lem s l n (c l) (h.each l at) node (new-node n f) in
      (
        u,
        s',
        run,
        (
          Holds-change l (c l ++ n ∷ []) (n ∷ l ∷ c l) h is same (others-spared n f) (
              insert-apart n (c l ++ n ∷ []) f
                (λ x k. ground (arith, has-append x (c l) (n ∷ [])))),
          same.keeps,
        ),
      )

  -- So does `insert_head`, at the front.
  pub insert_head-Holds :
      (n : ℕ)
      → IsNode s n
      → IsFree lists c n
      → Ends
          (insert_head l n s)
          λ _ s'. Holds s' lists (update c l (n ∷ c l)) × ((x : ℕ) → IsNode s x → IsNode s' x)
  insert_head-Holds n node f =
      let (u, s', run, (is, same)) =
        insert_head_lem s l n (c l) (h.each l at) node (new-node n f) in
      (
        u,
        s',
        run,
        (
          Holds-change l (n ∷ c l) (n ∷ l ∷ c l) h is same (others-spared n f)
              (insert-apart n (n ∷ c l) f (λ x k. ground arith)),
          same.keeps,
        ),
      )

  -- `list_remove` takes a node out of the list that holds it and leaves every other list as it is.
  pub list_remove-Holds :
      (n : ℕ) (ys zs : List ℕ)
      → c l ≡ ys ++ n ∷ zs
      → Ends
          (list_remove l n s)
          λ _ s'. Holds s' lists (update c l (ys ++ zs)) × ((x : ℕ) → IsNode s x → IsNode s' x)
  list_remove-Holds n ys zs e =
      let (u, s', run, (is, _, _, same)) = list_remove_lem s l n ys zs (rw e at (h.each l at)) in
      (
        u,
        s',
        run,
        (
          Holds-change l (ys ++ zs) (l ∷ (ys ++ n ∷ zs)) h is same
              (λ m x i ne k. rw (← e) (own-spared m x i ne k))
              (λ m x i ne k.
                still-apart m x i ne
                  (rw e (ground (arith, has-append x ys zs, has-append x ys (n ∷ zs))))),
          same.keeps,
        ),
      )

  -- `pop` returns the first node, takes it out, and leaves every other list as it is.
  pub pop-Holds :
      (n : ℕ) (xs : List ℕ)
      → c l ≡ n ∷ xs
      → Ends
          (pop l s)
          λ r s'. (r ≡ n) × Holds s' lists (update c l xs) × ((x : ℕ) → IsNode s x → IsNode s' x)
  pop-Holds n xs e =
      let (u, s', run, (r, is, _, _, same)) = pop_lem s l n xs (rw e at (h.each l at)) in
      (
        u,
        s',
        run,
        (
          r,
          Holds-change l xs (l ∷ n ∷ xs) h is same
              (λ m x i ne k. subst (λ w. x ∉ (l ∷ w)) e (own-spared m x i ne k))
              (λ m x i ne k. still-apart m x i ne (rw e (ground arith))),
          same.keeps,
        ),
      )
