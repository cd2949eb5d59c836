-- ===== src/Prelude/Outcome.antt =====
-- What a kernel call comes to: a value, or the end in `panic`, after which the machine is halted.
-- One constructor of `Panic` stands for each message of the modelled files, and the others for undefined
-- behaviour: `null_block` for a read through NULL, `null_call` for a call through NULL, `dangling_port` for
-- the use of a port that is not in the table, `path_overrun` for a path that `vfs_resolve` cannot read,
-- `offset_overflow` for a signed sum that does not fit.
use mathlib.Core.Path.{◌≡◌, ap, subst}

pub data Panic : Type 0 where
  mark_used_range mark_free_range : Panic
  out_of_memory no_contiguous_pages : Panic
  free_null free_unaligned free_range double_free : Panic
  no_room_for_bitmap : Panic
  refill_out_of_memory large_out_of_memory invalid_cache : Panic
  pdpt_out_of_memory pd_out_of_memory pt_out_of_memory walk_null unmap_unmapped : Panic
  no_kernel_tables no_user_tables : Panic
  null_block null_call dangling_port path_overrun offset_overflow : Panic
  no_user_stack no_thread_stack init_not_found init_unreadable : Panic

pub data Outcome {ℓ} (A : Type ℓ) : Type ℓ where
  ok : A → Outcome A
  panic : Panic → Outcome A

infixl 5 ◌>>=◌
abbrev pub ◌>>=◌ {ℓ κ} : {A : Type ℓ} {B : Type κ} → Outcome A → (A → Outcome B) → Outcome B
ok a >>= f = f a
panic e >>= f = panic e

or_else {ℓ} : {A : Type ℓ} → A → Outcome A → A
or_else a (ok b) = b
or_else a (panic e) = a

-- What holds of the value that a call is known to return holds of the value it is said to return.
pub transfer {ℓ κ} : {A : Type ℓ} (P : A → Type κ) {a b : A} → ok a ≡ ok b → P a → P b
unfolding or_else
transfer P {a} {b} e h = subst P (ap (or_else a) e) h

-- One step of a run: the first part returns, and the rest is known from there.
pub bind_ok {ℓ κ} :
    {A : Type ℓ} {B : Type κ} {m : Outcome A} {a : A} {r : Outcome B} (f : A → Outcome B)
    → m ≡ ok a
    → f a ≡ r
    → (m >>= f) ≡ r
bind_ok f e h = rw e h
