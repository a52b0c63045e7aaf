-- ===== src/Sync/Pipe/Fill.antt =====
-- sync.c: what the loop of SyncDrainWriters does with the bytes of one writer.
use mathlib.Core.Path.{fun_ext}
use native.Mathlib.Nat.{add-zero}
use mathlib.Core.List.{append_assoc, append-nil}
use sasha_jakob.Base.{
  ℕ, zero, suc, ◌+◌, ◌<◌, ◌≡◌, refl, Option, some, is_some, true, false, List, [], ◌∷◌, ◌++◌, ap,
  ◌∙◌, sym, arith, ==-refl, ==-ne, length, get_elem?, Ends, ◌⊎◌, inl, inr, Option-some, ℤ, pos,
  pos_part, ltb_ℤ, Bool-cases, length-append, ℕ_discrete,
}
use sasha_jakob.Kernel.{Kernel, Hardware, Pipe, Pcb}
use sasha_jakob.Links.{put, put-put}
use sasha_jakob.Sync.Pipe.Bytes.{write_byte, fill_loop}
use sasha_jakob.Sync.Pipe.Ring.{Ring}
use sasha_jakob.Sync.Pipe.Put.{put_byte-Ring}

pub put_self {ℓ} : {A : Type ℓ} (f : ℕ → Option A) (a : ℕ) (v : A) → f a ≡ some v → f ≡ put f a v
put_self f a v here =
    fun_ext (λ x. elim (ℕ_discrete x a) [
      | yes e ↦ rw (e, ==-refl a) here
      | no ne ↦ rw (==-ne x a ne) refl
    ])

same_loc : (p : Pcb) (t : ℤ) → p.write_loc ≡ t → p ≡ record p { write_loc = t }
same_loc p t e = cc

-- The bytes `more` of the writer, from its position `w`, have gone to the end of the pipe, and its
-- position is behind them: the pipe is full then, or the writer is through. Nothing else has changed.
abbrev pub Fills :
    Hardware → Kernel → (o q src : ℕ) → ℤ → Pcb → ℕ → List ℕ → Option (Unit {0} × Kernel) → Type 0
Fills hw k o q src len p w bytes r = Ends r λ _ k'.
    (more : List ℕ) × ((i : ℕ) → i < length more → k.bytes (src + (w + i)) ≡ get_elem? more i)
    × ((v' : Pipe) × (k'.pipes o ≡ some v') × Ring hw.pipe_buffer_len v' (bytes ++ more))
    × (k'.pcbs ≡ put k.pcbs q (record p { write_loc = pos (w + length more) }))
    × ((length (bytes ++ more) ≡ hw.pipe_buffer_len) ⊎ (ltb_ℤ (pos (w + length more)) len ≡ false))
    × (k' ≡ record k { pipes = k'.pipes; pcbs = k'.pcbs })

Fills-none :
    (hw : Hardware) (k : Kernel) (o q src : ℕ) (len : ℤ) (v : Pipe) (p : Pcb) (w : ℕ)
    (bytes : List ℕ)
    → k.pipes o ≡ some v
    → Ring hw.pipe_buffer_len v bytes
    → k.pcbs q ≡ some p
    → p.write_loc ≡ pos w
    → (length bytes ≡ hw.pipe_buffer_len) ⊎ (ltb_ℤ (pos w) len ≡ false)
    → Fills hw k o q src len p w bytes (some (tt, k))
Fills-none hw k o q src len v p w bytes here r at loc stop = (
  tt,
  k,
  refl,
  (
    [],
    (λ i h. elim h [ ]),
    (v, here, rw (append-nil bytes) r),
    put_self k.pcbs q (record p { write_loc = pos (w + 0) })
        (at ∙ ap some (same_loc p (pos (w + 0)) (loc ∙ ap pos (omega arith)))),
    elim stop [
      | inl e ↦ inl (ap (length {A = ℕ}) (append-nil bytes) ∙ e)
      | inr e ↦ inr (ap (λ x. ltb_ℤ (pos x) len) (add-zero w) ∙ e)
    ],
    refl,
  ),
)

-- One round, and then the others.
abbrev after_round : Kernel → (o q : ℕ) → Pipe → Pcb → ℕ → Kernel
after_round k o q v' p w = record k {
  pipes = put k.pipes o v';
  pcbs = put k.pcbs q (record p { write_loc = pos (suc w) });
}

pub write_byte-Ring :
    (hw : Hardware) (k : Kernel) (o q src b : ℕ) (v : Pipe) (p : Pcb) (w : ℕ) (bytes : List ℕ)
    → k.pipes o ≡ some v
    → Ring hw.pipe_buffer_len v bytes
    → length bytes < hw.pipe_buffer_len
    → k.pcbs q ≡ some p
    → p.write_loc ≡ pos w
    → k.bytes (src + w) ≡ some b
    → (v' : Pipe) × (write_byte hw o q src k ≡ some (tt, after_round k o q v' p w))
      × Ring hw.pipe_buffer_len v' (bytes ++ b ∷ [])
      × (v'.open_for_read ≡ v.open_for_read)
unfolding write_byte
write_byte-Ring hw k o q src b v p w bytes here r free at loc cell =
    let (v', run, ring, opened) = put_byte-Ring hw k o (src + w) b v bytes here r free cell in
    (v', rw (at, loc, run, at, loc) refl, ring, opened)

moved-cons :
    (f : ℕ → Option ℕ) (src w b : ℕ) (more : List ℕ)
    → f (src + w) ≡ some b
    → ((i : ℕ) → i < length more → f (src + (suc w + i)) ≡ get_elem? more i)
    → (i : ℕ) → i < suc (length more)
    → f (src + (w + i)) ≡ get_elem? (b ∷ more) i
moved-cons f src w b more one rest zero h = ap f (omega arith) ∙ one
moved-cons f src w b more one rest (suc i) h = ap f (omega arith) ∙ rest i (omega arith)

Fills-more :
    (hw : Hardware) (k : Kernel) (o q src b : ℕ) (len : ℤ) (v' : Pipe) (p : Pcb) (w : ℕ)
    (bytes : List ℕ) (rest : Option (Unit {0} × Kernel))
    → k.bytes (src + w) ≡ some b
    → Fills hw
        (after_round k o q v' p w)
        o
        q
        src
        len
        (record p { write_loc = pos (suc w) })
        (suc w)
        (bytes ++ b ∷ [])
        rest
    → Fills hw k o q src len p w bytes rest
Fills-more hw k o q src b len v' p w bytes rest cell
      (_, k', run, (more, same, (v'', here, ring), table, stop, frame)) =
    let joined : (bytes ++ b ∷ []) ++ more ≡ bytes ++ b ∷ more = append_assoc bytes (b ∷ []) more in
    let shifted : suc w + length more ≡ w + length (b ∷ more) = omega arith in
    (
      tt,
      k',
      run,
      (
        b ∷ more,
        moved-cons k.bytes src w b more cell same,
        (v'', here, rw (← joined) ring),
        table
            ∙ put-put k.pcbs q (record p { write_loc = pos (suc w) })
                (record p { write_loc = pos (suc w + length more) })
            ∙ ap (λ x. put k.pcbs q (record p { write_loc = pos x })) shifted,
        elim stop [
          | inl e ↦ inl (ap (length {A = ℕ}) (sym joined) ∙ e)
          | inr e ↦ inr (ap (λ x. ltb_ℤ (pos x) len) (sym shifted) ∙ e)
        ],
        frame,
      ),
    )

-- The loop of SyncDrainWriters comes to an end: it moves bytes of the writer, in their order, to the end
-- of the pipe, until the pipe is full or the writer is through, and keeps the writer's position.
pub fill_loop-Fills :
    (hw : Hardware) (k : Kernel) (o q src : ℕ) (len : ℤ) (fuel : ℕ) (v : Pipe) (p : Pcb) (w : ℕ)
    (bytes : List ℕ)
    → k.pipes o ≡ some v
    → Ring hw.pipe_buffer_len v bytes
    → k.pcbs q ≡ some p
    → p.write_loc ≡ pos w
    → hw.pipe_buffer_len < fuel + length bytes
    → ((i : ℕ) → i < pos_part len → is_some (k.bytes (src + i)) ≡ true)
    → Fills hw k o q src len p w bytes (fill_loop hw fuel o q src len k)
unfolding fill_loop
fill_loop-Fills hw k o q src len zero v p w bytes here r at loc enough room =
    absurd (omega (arith, r.room, enough))
fill_loop-Fills hw k o q src len (suc fuel) v p w bytes here r at loc enough room =
    elim (Bool-cases (ltb_ℤ (pos (length bytes)) (pos hw.pipe_buffer_len))) [
      | inr full ↦
          rw (here, at, r.counted, full)
            (Fills-none hw k o q src len v p w bytes here r at loc
              (inl (ground (arith, full, r.room))))
      | inl free ↦ elim (Bool-cases (ltb_ℤ (pos w) len)) [
        | inr through ↦
            rw (here, at, r.counted, free, loc, through)
              (Fills-none hw k o q src len v p w bytes here r at loc (inr through))
        | inl more ↦
            let (b, cell) = Option-some (k.bytes (src + w)) (room w (ground (arith, more))) in
            let (v', run, ring, _) =
              write_byte-Ring hw k o q src b v p w bytes here r (ground (arith, free)) at loc
                cell in
            rw (here, at, r.counted, free, loc, more, run)
              (Fills-more hw k o q src b len v' p w bytes
                (fill_loop hw fuel o q src len (after_round k o q v' p w)) cell
                (fill_loop-Fills hw (after_round k o q v' p w) o q src len fuel v'
                  (record p { write_loc = pos (suc w) }) (suc w) (bytes ++ b ∷ [])
                  (rw (==-refl o) refl) ring (rw (==-refl q) refl) refl
                  (omega (arith, enough, length-append bytes (b ∷ []))) room))
      ]
    ]
