-- ===== src/Port/Forward.antt =====
-- `port_forward` of src/userspace/port.c against the table of ports: whose queue a message goes into.
use cobj_os.Prelude.{
  ℕ, zero, suc, ◌+◌, ◌-◌, ◌^◌, ◌<◌, ◌≡◌, ◌≢◌, refl, ap, ◌∙◌, ◌⊎◌, inl, inr, true, false, Option,
  none, some, List, [], ◌∷◌, ◌++◌, arith, ◌==◌, Bool-cases, ==_refl, get_or, length,
  get_or-set_self, get_or-set_ne,
}
use cobj_os.Thread.{Scheduler, is_blocked}
use cobj_os.Port.{Port, Ports, lookup_from, port_lookup, unblock, port_forward}

-- No entry of the table has the token; entries of destroyed ports are empty.
abbrev pub Absent : ℕ → List (Option Port) → Type 0
Absent token table = (j : ℕ) (q : Port) → get_or table j none ≡ some q → q.token ≢ token

-- Entry `i` is the port, with the token, and no entry in front of it has the token.
abbrev pub FirstAt : ℕ → List (Option Port) → ℕ → Port → Type 0
FirstAt token table i port =
    (get_or table i none ≡ some port)
    × (port.token ≡ token)
    × ((j : ℕ) (q : Port) → j < i → get_or table j none ≡ some q → q.token ≢ token)

Absent-later :
    (token : ℕ) (first : Option Port) (table : List (Option Port))
    → ((q : Port) → first ≡ some q → q.token ≢ token)
    → Absent token table
    → Absent token (first ∷ table)
Absent-later token first table here rest zero q e = here q e
Absent-later token first table here rest (suc j) q e = rest j q e

before_later :
    (token k : ℕ) (first : Option Port) (table : List (Option Port))
    → ((q : Port) → first ≡ some q → q.token ≢ token)
    → ((j : ℕ) (q : Port) → j < k → get_or table j none ≡ some q → q.token ≢ token)
    → (j : ℕ) (q : Port) → j < suc k
    → get_or (first ∷ table) j none ≡ some q
    → q.token ≢ token
before_later token k first table here rest zero q h e = here q e
before_later token k first table here rest (suc j) q h e = rest j q (omega (arith, h)) e

abbrev Looked : ℕ → List (Option Port) → ℕ → Type 0
Looked token table i =
    ((lookup_from token table i ≡ none) × Absent token table)
    ⊎ ((k : ℕ) × (port : Port) × (lookup_from token table i ≡ some (i + k, port))
        × FirstAt token table k port)

Looked-later :
    (token i : ℕ) (first : Option Port) (table : List (Option Port))
    → ((q : Port) → first ≡ some q → q.token ≢ token)
    → lookup_from token (first ∷ table) i ≡ lookup_from token table (i + 1)
    → Looked token table (i + 1)
    → Looked token (first ∷ table) i
Looked-later token i first table here step (inl (e, absent)) =
    inl (step ∙ e, Absent-later token first table here absent)
Looked-later token i first table here step (inr (k, port, e, (at, tok, before))) = inr (
  suc k,
  port,
  step ∙ e ∙ ap (λ (n : ℕ). some (n, port)) (omega arith),
  (at, tok, before_later token k first table here before),
)

-- The loop finds the first entry with the token, or there is none.
lookup_from-Looked : (token i : ℕ) (table : List (Option Port)) → Looked token table i
unfolding lookup_from
lookup_from-Looked token i [] = inl (refl, λ j q e. cc)
lookup_from-Looked token i (none ∷ table) =
    Looked-later token i none table (λ q e. cc) refl (lookup_from-Looked token (i + 1) table)
lookup_from-Looked token i (some port ∷ table) = elim (Bool-cases (port.token == token)) [
  | inl same ↦
      let here : i ≡ i + 0 = omega arith in
      inr (
        0,
        port,
        rw same (ap (λ (n : ℕ). some (n, port)) here),
        (refl, ground (arith, same), λ j q h e. absurd (omega (arith, h))),
      )
  | inr apart ↦
      Looked-later token i (some port) table
        (λ q e.
          let it : port ≡ q = cc in
          let tok : port.token ≡ q.token = ap (λ (r : Port). r.token) it in
          ground (arith, apart, tok))
        (rw apart refl) (lookup_from-Looked token (i + 1) table)
]

in_table :
    (table : List (Option Port)) (i : ℕ) (port : Port)
    → get_or table i none ≡ some port
    → i < length table
in_table [] i port e = cc
in_table (first ∷ table) zero port e = omega arith
in_table (first ∷ table) (suc i) port e = omega (arith, in_table table i port e)

-- The message is the last one of port `i`, whose owner's thread is not blocked any more; no other port and no
-- other thread has changed.
pub record Forwarded (thread_of : ℕ → ℕ) (msg : List ℕ) (i : ℕ) (port : Port) (p p' : Ports)
    : Type 0 where
  pub entry :
      get_or p'.port_table i none ≡ some (record port { messages = port.messages ++ msg ∷ [] })
  pub other_ports : (j : ℕ) → i ≢ j → get_or p'.port_table j none ≡ get_or p.port_table j none
  pub awake : is_blocked (p'.sched.threads (thread_of port.owner)).state ≡ false
  pub other_threads : (u : ℕ) → u ≢ thread_of port.owner → p'.sched.threads u ≡ p.sched.threads u
  pub same_queue : p'.sched.queue ≡ p.sched.queue

unblock-awake :
    (t : ℕ) (s : Scheduler)
    → (is_blocked ((unblock t s).threads t).state ≡ false)
      × ((u : ℕ) → u ≢ t → (unblock t s).threads u ≡ s.threads u)
      × ((unblock t s).queue ≡ s.queue)
unfolding unblock
unblock-awake t s = elim (Bool-cases (is_blocked (s.threads t).state)) [
  | inr e ↦ rw e (e, λ u ne. refl, refl)
  | inl e ↦
      let self : (t == t) ≡ true = ==_refl t in
      rw e (
        rw self refl,
        λ u ne. let apart : (u == t) ≡ false = ground (arith, ne) in rw apart refl,
        refl,
      )
]

-- A message to a token goes behind the other messages of the first port of the table with that token,
-- whose owner's thread is woken, and its length is the result; no other port or thread changes. Where no
-- port of the table has the token, the result is -1 and nothing changes.
pub port_forward-Forwarded :
    (thread_of : ℕ → ℕ) (dst : ℕ) (msg : List ℕ) (p : Ports)
    → (let (result, p') = port_forward thread_of dst msg p in
        (Absent dst p.port_table × (result ≡ 2 ^ 64 - 1) × (p' ≡ p))
        ⊎ ((i : ℕ) × (port : Port) × FirstAt dst p.port_table i port
            × (result ≡ length msg)
            × Forwarded thread_of msg i port p p'))
unfolding port_forward port_lookup
port_forward-Forwarded thread_of dst msg p = elim (lookup_from-Looked dst 0 p.port_table) [
  | inl (e, absent) ↦ rw (e, port_forward) (inl (absent, refl, refl))
  | inr (i, port, e, first) ↦
      let (at, tok, before) = first in
      let found : lookup_from dst p.port_table 0 ≡ some (i, port) =
        e ∙ ap (λ (n : ℕ). some (n, port)) (omega arith) in
      let new : Port = record port { messages = port.messages ++ msg ∷ [] } in
      let (awake, threads, queue) = unblock-awake (thread_of port.owner) p.sched in
      rw (found, port_forward)
        (inr (
          i,
          port,
          (at, tok, before),
          refl,
          record {
            entry =
                get_or-set_self p.port_table i (some new) none (in_table p.port_table i port at);
            other_ports = λ j ne. get_or-set_ne p.port_table i j (some new) none ne;
            awake = awake;
            other_threads = threads;
            same_queue = queue;
          },
        ))
]
