-- ===== src/Sync/Table/Ids.antt =====
-- The ids of synchronisation objects: GetNewID and FreeID, and the counter of the ids in use.
use sasha_jakob.Base.{
  ℕ, zero, suc, ◌+◌, ◌<◌, ◌≤◌, ◌≡◌, ◌≢◌, refl, some, List, [], ◌∷◌, arith, ◌==◌, if◌then◌else◌,
  get_elem?, set, length, ℤ, pos, suc_ℤ, error, Ends, get_elem?-set_self, set-get_elem?,
  get_elem?-some, get_elem?-lt, length-set, inl, inr, ◌⊎◌, ℕ_discrete, ◌∙◌,
}
use sasha_jakob.Kernel.{Kernel}
use sasha_jakob.Sync.Table.{max_syncs, id_loop, get_new_id, free_id}

-- How many of the entries are in use.
abbrev pub used_count : List ℕ → ℕ
used_count [] = 0
used_count (x ∷ xs) = if x == 0 then used_count xs else suc (used_count xs)

-- There is an entry for each id, and the counter counts those in use.
pub record IdsAgree (k : Kernel) : Type 0 where
  pub entries : length k.id_used ≡ max_syncs
  pub counted : k.global_sync_counter ≡ pos (used_count k.id_used)

-- Id `f` is taken.
abbrev pub taken : Kernel → ℕ → Kernel
taken k f = record k {
  id_used = set k.id_used f 1;
  global_sync_counter = suc_ℤ k.global_sync_counter;
}

abbrev Found : Kernel → (left i : ℕ) → ℤ → Kernel → Type 0
Found k left i r k' =
    ((f : ℕ) × (r ≡ pos f)
      × (i ≤ f)
      × (f < i + left)
      × (get_elem? k.id_used f ≡ some 0)
      × (k' ≡ taken k f)
      × ((j : ℕ) → i ≤ j → j < f → get_elem? k.id_used j ≢ some 0))
    ⊎ ((r ≡ error) × (k' ≡ k) × ((j : ℕ) → i ≤ j → j < i + left → get_elem? k.id_used j ≢ some 0))

Found-step :
    (k : Kernel) (left i : ℕ) (r : ℤ) (k' : Kernel)
    → get_elem? k.id_used i ≢ some 0
    → Found k left (i + 1) r k'
    → Found k (suc left) i r k'
Found-step k left i r k' used (inl (f, at, lo, hi, free, same, first)) =
    inl (f, at, omega arith, omega arith, free, same, λ j a b. below j a b)
  where
    below : (j : ℕ) → i ≤ j → j < f → get_elem? k.id_used j ≢ some 0
    below j a b = elim (ℕ_discrete i j) [ yes e ↦ rw (← e) used | no ne ↦ first j (omega arith) b ]
Found-step k left i r k' used (inr (at, same, rest)) = inr (at, same, λ j a b. all j a b)
  where
    all : (j : ℕ) → i ≤ j → j < i + suc left → get_elem? k.id_used j ≢ some 0
    all j a b = elim (ℕ_discrete i j) [
      | yes e ↦ rw (← e) used
      | no ne ↦ rest j (omega arith) (omega arith)
    ]

id_loop_run :
    (k : Kernel) (left i : ℕ)
    → i + left ≤ length k.id_used
    → Ends (id_loop left i k) (Found k left i)
unfolding id_loop
id_loop_run k zero i h = (error, k, refl, inr (refl, refl, λ j lo hi. absurd (omega arith)))
id_loop_run k (suc left) i h =
    let (v, e) = get_elem?-some k.id_used i (omega arith) in
    elim (ℕ_discrete v 0) [
      | yes free ↦ (
        pos i,
        taken k i,
        ground arith,
        inl (
          i,
          refl,
          omega arith,
          omega arith,
          ground arith,
          refl,
          λ j lo hi. absurd (omega arith),
        ),
      )
      | no used ↦
          let (r, k', run, found) = id_loop_run k left (i + 1) (omega arith) in
          (r, k', ground arith, Found-step k left i r k' (ground arith) found)
    ]

used_count-full :
    (xs : List ℕ) → ((j : ℕ) → j < length xs → get_elem? xs j ≢ some 0) → used_count xs ≡ length xs
used_count-full [] h = refl
used_count-full (x ∷ xs) h =
    let rest = used_count-full xs (λ j lt. h (suc j) (omega arith)) in
    ground (arith, h 0 (omega arith))

used_count-set :
    (xs : List ℕ) (f : ℕ) → get_elem? xs f ≡ some 0 → used_count (set xs f 1) ≡ suc (used_count xs)
used_count-set [] f h = cc
used_count-set (x ∷ xs) zero h = ground arith
used_count-set (x ∷ xs) (suc f) h = ground (arith, used_count-set xs f)

used_count-lt : (xs : List ℕ) (f : ℕ) → get_elem? xs f ≡ some 0 → used_count xs < length xs
used_count-lt [] f h = cc
used_count-lt (x ∷ xs) zero h = ground (arith, used_count-le xs)
  where
    used_count-le : (ys : List ℕ) → used_count ys ≤ length ys
    used_count-le [] = omega arith
    used_count-le (y ∷ ys) = ground (arith, used_count-le ys)
used_count-lt (x ∷ xs) (suc f) h = ground (arith, used_count-lt xs f)

-- What a call of GetNewID has done: the lowest free id is taken, or none is free.
abbrev pub Issues : Kernel → ℤ → Kernel → Type 0
Issues k r k' =
    ((f : ℕ) × (r ≡ pos f)
      × (get_elem? k.id_used f ≡ some 0)
      × ((j : ℕ) → j < f → get_elem? k.id_used j ≢ some 0)
      × (k' ≡ taken k f)
      × (used_count k.id_used < max_syncs))
    ⊎ ((r ≡ error) × (k' ≡ k) × (used_count k.id_used ≡ max_syncs))

module _ (k : Kernel) (agree : IdsAgree k) where
  Issues-of-Found : (r : ℤ) (k' : Kernel) → Found k max_syncs 0 r k' → Issues k r k'
  Issues-of-Found r k' (inl (f, at, lo, hi, free, same, first)) = inl (
    f,
    at,
    free,
    λ j a. first j (omega arith) a,
    same,
    omega (arith, used_count-lt k.id_used f free, agree.entries),
  )
  Issues-of-Found r k' (inr (at, same, full)) = inr (
    at,
    same,
    (used_count-full k.id_used (λ j a. full j (omega arith) (omega (arith, agree.entries))))
        ∙ agree.entries,
  )

  taken-IdsAgree : (f : ℕ) → get_elem? k.id_used f ≡ some 0 → IdsAgree (taken k f)
  taken-IdsAgree f free = record {
    entries = length-set k.id_used f 1 ∙ agree.entries;
    counted = ground (arith, agree.counted, used_count-set k.id_used f free);
  }

  -- GetNewID takes the lowest free id and counts it, and it finds one exactly while the counter is
  -- below MAX_SYNCS; otherwise it returns ERROR and changes nothing. The counter stays the number of
  -- ids in use.
  pub get_new_id_lem : Ends (get_new_id k) λ r k'. IdsAgree k' × Issues k r k'
  unfolding get_new_id
  get_new_id_lem =
      let (r, k', run, found) = id_loop_run k max_syncs 0 (omega (arith, agree.entries)) in
      (r, k', run, (kept r k' found, Issues-of-Found r k' found))
    where
      kept : (r : ℤ) (k' : Kernel) → Found k max_syncs 0 r k' → IdsAgree k'
      kept r k' (inl (f, _, _, _, free, same, _)) = rw same (taken-IdsAgree f free)
      kept r k' (inr (_, same, _)) = rw same agree

  -- The id that GetNewID has just returned can be given back, which restores the table and the
  -- counter.
  pub free_id-get_new_id :
      (f : ℕ) (k' : Kernel) → get_new_id k ≡ some (pos f, k') → free_id (pos f) k' ≡ some (tt, k)
  unfolding free_id
  free_id-get_new_id f k' e = back get_new_id_lem
    where
      back :
          Ends (get_new_id k) (λ r k''. IdsAgree k'' × Issues k r k'')
          → free_id (pos f) k' ≡ some (tt, k)
      back (r, k'', run, (_, inl (g, at, free, _, same, _))) =
          let eg : f ≡ g = ground arith in
          let ek : k' ≡ taken k g = ground arith in
          let small : g < length k.id_used = get_elem?-lt k.id_used g 0 free in
          rw (eg, ek)
            (ground (
              arith,
              agree.entries,
              get_elem?-set_self k.id_used g 1 small,
              set-get_elem? k.id_used g 0 1 free,
              agree.counted,
            ))
      back (r, k'', run, (_, inr (at, same, _))) = ground arith
