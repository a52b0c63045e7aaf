-- ===== src/Links.antt =====
-- The functions of list.c over a memory of list cells. An address names a `list_node_t`; a
-- `list_t` has the address of its sentinel, its first field. Each field is a map of its own from
-- addresses to contents, and `none` marks memory that is not allocated. NULL is 0.
pub mod Chain
pub mod Splice
pub mod Insert
pub mod Remove
pub mod Walk
pub mod Heap
use mathlib.Core.Path.{fun_ext}
use sasha_jakob.Base.{
  ℕ, zero, suc, ◌≡◌, arith, Option, none, some, ◌==◌, if◌then◌else◌, ℤ, pos, negsuc, suc_ℤ, pred_ℤ,
  not, eq_ℤ, is_positive, truthy, error, Cmd, and_then, pure, fault, ◌>>=◌, ◌>>◌,
}

pub record Links : Type 0 where
  pub next : ℕ → Option ℕ
  pub prev : ℕ → Option ℕ
  pub count : ℕ → Option ℤ

abbrev pub null : ℕ
null = 0

abbrev pub put {ℓ} : {A : Type ℓ} → (ℕ → Option A) → ℕ → A → ℕ → Option A
put f a v x = if x == a then some v else f x

abbrev pub drop_cell {ℓ} : {A : Type ℓ} → (ℕ → Option A) → ℕ → ℕ → Option A
drop_cell f a x = if x == a then none else f x

pub put-put {ℓ} :
    {A : Type ℓ} (f : ℕ → Option A) (a : ℕ) (u v : A) → put (put f a u) a v ≡ put f a v
put-put f a u v = fun_ext (λ x. ground arith)

-- `a->next`, `a->prev` and `l->count`, read and written.
abbrev pub load_next : ℕ → Cmd Links ℕ
load_next a s = and_then (s.next a) λ v. some (v, s)

abbrev pub load_prev : ℕ → Cmd Links ℕ
load_prev a s = and_then (s.prev a) λ v. some (v, s)

abbrev pub load_count : ℕ → Cmd Links ℤ
load_count a s = and_then (s.count a) λ v. some (v, s)

abbrev pub store_next : ℕ → ℕ → Cmd Links (Unit {0})
store_next a v s = and_then (s.next a) λ _. some (tt, record s { next = put s.next a v })

abbrev pub store_prev : ℕ → ℕ → Cmd Links (Unit {0})
store_prev a v s = and_then (s.prev a) λ _. some (tt, record s { prev = put s.prev a v })

abbrev pub store_count : ℕ → ℤ → Cmd Links (Unit {0})
store_count a v s = and_then (s.count a) λ _. some (tt, record s { count = put s.count a v })

-- What `malloc` and `free` do to the cells of one `list_t`. The contents of fresh memory are not
-- determined; every caller writes before it reads.
abbrev pub map_list : ℕ → Links → Links
map_list l s = record {
  next = put s.next l null;
  prev = put s.prev l null;
  count = put s.count l (pos 0);
}

abbrev pub unmap_list : ℕ → Links → Links
unmap_list l s = record {
  next = drop_cell s.next l;
  prev = drop_cell s.prev l;
  count = drop_cell s.count l;
}

unfoldable pub list_init : ℕ → Cmd Links (Unit {0})
list_init l = do store_count l (pos 0); store_prev l l; store_next l l

-- `fresh` is what `malloc` returns: an address whose memory it has mapped, or NULL.
unfoldable pub create_list : ℕ → Cmd Links ℕ
unfolding list_init
create_list fresh s =
    if fresh == null
    then (list_init null >> pure null) s
    else (list_init fresh >> pure fresh) (map_list fresh s)

unfoldable pub insert_tail : ℕ → ℕ → Cmd Links (Unit {0})
insert_tail l n = if n == null then pure tt else if l == null then pure tt else do
  old ← load_prev l
  store_prev n old
  store_next n l
  behind ← load_prev l
  store_next behind n
  store_prev l n
  c ← load_count l
  store_count l (suc_ℤ c)

unfoldable pub insert_head : ℕ → ℕ → Cmd Links (Unit {0})
insert_head l n = if n == null then pure tt else if l == null then pure tt else do
  store_prev n l
  old ← load_next l
  store_next n old
  first ← load_next l
  store_prev first n
  store_next l n
  c ← load_count l
  store_count l (suc_ℤ c)

-- A walk ends within one round more than the list counts; fuel that runs out is no result.
abbrev pub rounds : ℤ → ℕ
rounds (pos n) = suc n
rounds (negsuc n) = 1

contains_loop : ℕ → (l n curr : ℕ) → Cmd Links ℤ
contains_loop zero l n curr = fault
contains_loop (suc fuel) l n curr =
    if curr == l
    then pure (pos 0)
    else if curr == n
    then pure (pos 1)
    else do following ← load_next curr; contains_loop fuel l n following

unfoldable pub list_contains : ℕ → ℕ → Cmd Links ℤ
unfolding contains_loop
list_contains l n =
    if n == null
    then pure error
    else if l == null
    then pure error
    else do first ← load_next l; c ← load_count l; contains_loop (rounds c) l n first

unlink : ℕ → ℕ → Cmd Links (Unit {0})
unlink l n = do
  temp ← load_prev n
  after ← load_next n
  store_next temp after
  behind ← load_next n
  store_prev behind temp
  store_prev n null
  store_next n null
  c ← load_count l
  store_count l (pred_ℤ c)

unfoldable pub list_remove : ℕ → ℕ → Cmd Links (Unit {0})
unfolding unlink
list_remove l n = do
  after ← load_next n
  if after == null
      then pure tt
      else do before ← load_prev n; if before == null then pure tt else unlink l n

unfoldable pub list_is_empty : ℕ → Cmd Links ℤ
list_is_empty l =
    if l == null
    then pure error
    else do c ← load_count l; pure (if eq_ℤ c (pos 0) then pos 1 else pos 0)

detach_first : ℕ → Cmd Links ℕ
detach_first l = do
  ret ← load_next l
  second ← load_next ret
  store_prev second l
  after ← load_next ret
  store_next l after
  store_prev ret null
  store_next ret null
  c ← load_count l
  store_count l (pred_ℤ c)
  pure ret

unfoldable pub pop : ℕ → Cmd Links ℕ
unfolding list_is_empty detach_first
pop l = do empty ← list_is_empty l; if truthy empty then pure null else detach_first l

unfoldable pub peek : ℕ → Cmd Links ℕ
unfolding list_is_empty
peek l = do empty ← list_is_empty l; if truthy empty then pure null else load_next l

clear_loop : ℕ → ℕ → Cmd Links ℤ
clear_loop zero l = fault
clear_loop (suc fuel) l = do
  c ← load_count l
  if not (is_positive c)
      then pure (pos 0)
      else do popped ← pop l; if popped == null then pure error else clear_loop fuel l

unfoldable pub clear_list : ℕ → Cmd Links ℤ
unfolding clear_loop
clear_list l = if l == null then pure error else do c ← load_count l; clear_loop (rounds c) l

unfoldable pub destroy_list : ℕ → Cmd Links ℤ
unfolding clear_list
destroy_list l = do
  rc ← clear_list l
  if eq_ℤ rc error then pure error else λ s. some (pos 0, unmap_list l s)
