-- ===== src/Syscall/Channels/Held.antt =====
-- Who may use a port through the system calls of src/userspace/syscall.c.
use cobj_os.Prelude.{
  ℕ, suc, ◌+◌, ◌<◌, ◌≡◌, refl, ap, ◌∙◌, inl, inr, true, false, Option, none, some, List, [], ◌∷◌,
  ◌++◌, arith, ltb, ◌==◌, get_or, set, length, Bool-cases, ==_refl, get_or-append_left,
  get_or-append_end, set-append_end, set-set_back,
}
use cobj_os.Prelude.Ints.{pos, negsuc}
use cobj_os.Prelude.Outcome.{ok}
use cobj_os.Port.{Port, token_of, port_create, port_destroy}
use cobj_os.Kernel.{Process, Kernel}
use cobj_os.Syscall.Channels.{
  not_held, held_at, free_place, held_place, refused, receive_at, destroy_at, put_port,
  sys_port_create, sys_port_receive, sys_port_destroy,
}

-- The held ports are in the table, and none of them has the token.
abbrev pub Unheld : ℕ → List (Option Port) → List (Option ℕ) → Type 0
Unheld token table [] = Unit {0}
Unheld token table (none ∷ held) = Unheld token table held
Unheld token table (some index ∷ held) =
    ((index < length table)
      × (port : Port) × (get_or table index none ≡ some port)
      × ((port.token == token) ≡ false))
    × Unheld token table held

held_place-none :
    (token i : ℕ) (table : List (Option Port)) (held : List (Option ℕ))
    → Unheld token table held
    → held_place token table held i ≡ ok not_held
unfolding held_place
held_place-none token i table [] free = refl
held_place-none token i table (none ∷ held) free = held_place-none token (i + 1) table held free
held_place-none token i table (some index ∷ held) ((lt, port, at, other), free) =
    rw (at, other, held_place) (held_place-none token (i + 1) table held free)

-- A port at the end of the table, put into the first free place.
held_place-new :
    (token i place : ℕ) (port : Port) (table : List (Option Port)) (held : List (Option ℕ))
    → Unheld token table held
    → port.token ≡ token
    → free_place held i ≡ some place
    → (j : ℕ) × (place ≡ i + j)
      × (j < length held)
      × (get_or held j none ≡ none)
      × (held_place token (table ++ some port ∷ []) (set held j (some (length table))) i
          ≡ ok (held_at place (length table) port))
unfolding held_place free_place
held_place-new token i place port table [] free e found = cc
held_place-new token i place port table (none ∷ held) free e found =
    let at : i ≡ place = cc in
    let last = get_or-append_end table (some port) none in
    let hit : (port.token == token) ≡ true = ground (arith, e) in
    (
      0,
      omega (arith, at),
      omega arith,
      refl,
      rw (last, hit, held_place) (ap (λ (t : ℕ). ok (held_at t (length table) port)) at),
    )
held_place-new token i place port table (some index ∷ held) ((lt, old, at, other), free) e found =
    let (j, same, below, gone, run) =
      held_place-new token (i + 1) place port table held free e found in
    let kept : get_or (table ++ some port ∷ []) index none ≡ some old =
      get_or-append_left table (some port ∷ []) index none lt ∙ at in
    (suc j, omega (arith, same), omega (arith, below), gone, rw (kept, other, held_place) run)

abbrev with_ports : List (Option ℕ) → Process → Process
with_ports l v = record v { ports = l }

module _ {S : Type 0} where
  -- A process that holds no port with the token can neither receive with it nor destroy its port.
  pub Unheld-refused :
      (ticks p token len : ℕ) (k : Kernel S)
      → Unheld token k.ports.port_table (k.procs p).ports
      → (sys_port_receive ticks p token len k ≡ ok refused)
        × (sys_port_destroy p token k ≡ ok (negsuc 0, k))
  unfolding sys_port_receive sys_port_destroy receive_at destroy_at
  Unheld-refused ticks p token len k free =
      let found = held_place-none token 0 k.ports.port_table (k.procs p).ports free in
      (rw (found, sys_port_receive) refl, rw (found, sys_port_destroy) refl)

  -- Where a place and room in the table are left and no held port has the new token, `sys_port_create`
  -- returns it; `sys_port_destroy` with it succeeds, every process is as it was, and the table has an
  -- empty entry more.
  pub port_destroy-create :
      (counter p place : ℕ) (k : Kernel S)
      → Unheld (token_of counter) k.ports.port_table (k.procs p).ports
      → free_place (k.procs p).ports 0 ≡ some place
      → length k.ports.port_table < 1024
      → (k' : Kernel S) × (k'' : Kernel S) × (sys_port_create counter p k
          ≡ ok (token_of counter, k'))
        × (sys_port_destroy p (token_of counter) k' ≡ ok (pos 0, k''))
        × ((q : ℕ) → k''.procs q ≡ k.procs q)
        × (k''.ports.port_table ≡ k.ports.port_table ++ none ∷ [])
  unfolding sys_port_create sys_port_destroy destroy_at port_create port_destroy
  port_destroy-create counter p place k free spot room =
      let table = k.ports.port_table in
      let token = token_of counter in
      let port : Port = record { token = token; messages = []; owner = p } in
      let fits : ltb (length table) 1024 ≡ true = ground (arith, room) in
      let (j, same, below, gone, run) =
        held_place-new token 0 place port table (k.procs p).ports free refl spot in
      let at : place ≡ j = omega (arith, same) in
      let k1 : Kernel S =
        put_port p j (some (length table))
          (record k { ports = record (k.ports) { port_table = table ++ some port ∷ [] } }) in
      let self : (p == p) ≡ true = ==_refl p in
      let made : sys_port_create counter p k ≡ ok (token, k1) =
        rw (fits, spot, at, sys_port_create) refl in
      let found : held_place token k1.ports.port_table (k1.procs p).ports 0
          ≡ ok (held_at place (length table) port) =
        rw self run in
      let (value, k2) = destroy_at p k1 (held_at place (length table) port) in
      (
        k1,
        k2,
        made,
        rw (found, sys_port_destroy) refl,
        λ q. elim (Bool-cases (q == p)) [
          | inr ne ↦ rw ne refl
          | inl e ↦
              let it : q ≡ p = ground (arith, e) in
              rw (e, self, it, at)
                (ap (λ (l : List (Option ℕ)). with_ports l (k.procs p))
                  (set-set_back (k.procs p).ports j (some (length table)) none none gone below))
        ],
        set-append_end table (some port) none,
      )
