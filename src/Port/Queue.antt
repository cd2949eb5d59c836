-- ===== src/Port/Queue.antt =====
-- Ports of src/userspace/port.c as queues: who finds them, and what comes out of them.
use cobj_os.Prelude.{
  ℕ, zero, suc, ◌+◌, ◌-◌, ◌^◌, ◌≡◌, ◌≢◌, refl, sym, ap, ◌∙◌, ◌⊎◌, inl, inr, true, false, Option,
  none, some, List, [], ◌∷◌, ◌++◌, arith, ◌==◌, Bool-cases, Option-cases, ==_refl, set, length,
  take, append_assoc, append_nil,
}
use cobj_os.Thread.{Scheduler}
use cobj_os.Port.{
  Port, Ports, lookup_from, port_lookup, port_forward, received, waiting, port_receive,
}

abbrev messages_of : Option (ℕ × Port) → Option (List (List ℕ))
messages_of none = none
messages_of (some (i, port)) = some (port.messages)

-- The messages that a token's port holds, if there is one.
unfoldable pub contents : ℕ → Ports → Option (List (List ℕ))
contents token p = messages_of (port_lookup token p)

-- A change of the entry that a lookup finds, which keeps its token, is what is found then, and no other
-- token's port changes.
lookup_from-set :
    (token i j : ℕ) (port new : Port) (table : List (Option Port))
    → lookup_from token table i ≡ some (j, port)
    → new.token ≡ port.token
    → (k : ℕ) × (j ≡ i + k)
      × (port.token ≡ token)
      × (lookup_from token (set table k (some new)) i ≡ some (j, new))
      × ((other : ℕ)
          → other ≢ token
          → lookup_from other (set table k (some new)) i ≡ lookup_from other table i)
unfolding lookup_from
lookup_from-set token i j port new [] found e = cc
lookup_from-set token i j port new (none ∷ table) found e =
    let (k, at, tok, this, others) = lookup_from-set token (i + 1) j port new table found e in
    (suc k, omega (arith, at), tok, this, others)
lookup_from-set token i j port new (some first ∷ table) found e =
    elim (Bool-cases (first.token == token)) [
      | inl same ↦
          let found' : ◌≡◌ {A = Option (ℕ × Port)} (some (i, first)) (some (j, port)) =
            rw same at found in
          let index : i ≡ j = cc in
          let it : first ≡ port = cc in
          let tok : first.token ≡ token = ground (arith, same) in
          let tok' : port.token ≡ token = sym (ap (λ (q : Port). q.token) it) ∙ tok in
          let new_tok : new.token ≡ token = e ∙ tok' in
          let hit : (new.token == token) ≡ true = rw new_tok (==_refl token) in
          (
            0,
            omega (arith, index),
            tok',
            rw (hit, index) refl,
            λ other ne.
                let miss : (new.token == other) ≡ false = ground (arith, new_tok, ne) in
                let miss' : (first.token == other) ≡ false = ground (arith, tok, ne) in
                rw (miss, miss') refl,
          )
      | inr apart ↦
          let found' : lookup_from token table (i + 1) ≡ some (j, port) = rw apart at found in
          let (k, at, tok, this, others) =
            lookup_from-set token (i + 1) j port new table found' e in
          (suc k, omega (arith, at), tok, rw apart this, λ other ne. rw (others other ne) refl)
    ]

-- What a port holds is known, and nothing of the others has changed.
abbrev pub Holds : ℕ → List (List ℕ) → Ports → Ports → Type 0
Holds token ms old p =
    (contents token p ≡ some ms)
    × ((other : ℕ) → other ≢ token → contents other p ≡ contents other old)

contents-set :
    (token j : ℕ) (port new : Port) (p : Ports) (s : Scheduler)
    → port_lookup token p ≡ some (j, port)
    → new.token ≡ port.token
    → Holds token new.messages p (record { port_table = set p.port_table j (some new); sched = s })
unfolding contents port_lookup
contents-set token j port new p s found e =
    let (k, at, tok, this, others) = lookup_from-set token 0 j port new p.port_table found e in
    let index : j ≡ k = omega (arith, at) in
    (rw index (ap messages_of this), λ other ne. rw index (ap messages_of (others other ne)))

contents-found :
    (token : ℕ) (ms : List (List ℕ)) (p : Ports)
    → contents token p ≡ some ms
    → (j : ℕ) × (port : Port) × (port_lookup token p ≡ some (j, port)) × (port.messages ≡ ms)
unfolding contents
contents-found token ms p held = elim (Option-cases (port_lookup token p)) [
  | inl e ↦ let no : none ≡ some ms = rw e at held in cc
  | inr ((j, port), e) ↦ let yes : some (port.messages) ≡ some ms = rw e at held in (j, port, e, cc)
]

-- A message to a token that a port has is put behind the others, its length is the result, and no
-- other port changes; without such a port the result is -1 and nothing changes.
port_forward-Holds :
    (thread_of : ℕ → ℕ) (dst : ℕ) (msg : List ℕ) (p : Ports)
    → (let (result, p') = port_forward thread_of dst msg p in
        ((contents dst p ≡ none) × (result ≡ 2 ^ 64 - 1) × (p' ≡ p))
        ⊎ ((ms : List (List ℕ)) × (contents dst p ≡ some ms)
            × (result ≡ length msg)
            × Holds dst (ms ++ msg ∷ []) p p'))
unfolding port_forward contents
port_forward-Holds thread_of dst msg p = elim (Option-cases (port_lookup dst p)) [
  | inl e ↦ rw (e, port_forward) (inl (refl, refl, refl))
  | inr ((j, port), e) ↦
      rw (e, port_forward)
        (inr (
          port.messages,
          refl,
          refl,
          contents-set dst j port (record port { messages = port.messages ++ msg ∷ [] }) p _ e refl,
        ))
]

-- A receiver gets the first `len` bytes of the oldest message, which is gone then; no other port
-- changes.
port_receive-Holds :
    (ticks token len : ℕ) (msg : List ℕ) (ms : List (List ℕ)) (p : Ports)
    → contents token p ≡ some (msg ∷ ms)
    → (p' : Ports) × (port_receive ticks token len p ≡ received (take len msg) p')
      × Holds token ms p p'
unfolding port_receive
port_receive-Holds ticks token len msg ms p held =
    let (j, port, e, oldest) = contents-found token (msg ∷ ms) p held in
    (
      record p { port_table = set p.port_table j (some (record port { messages = ms })) },
      rw (e, port_receive, oldest) refl,
      contents-set token j port (record port { messages = ms }) p p.sched e refl,
    )

-- Messages sent one after the other, and as many received as are asked for.
pub forward_all : (ℕ → ℕ) → ℕ → List (List ℕ) → Ports → Ports
forward_all thread_of dst [] p = p
forward_all thread_of dst (msg ∷ ms) p =
    forward_all thread_of dst ms ((port_forward thread_of dst msg p).1)

-- `none` where a receiver would wait.
pub receive_all : (count ticks token len : ℕ) → Ports → Option (List (List ℕ))
receive_all zero ticks token len p = some []
receive_all (suc count) ticks token len p = elim (port_receive ticks token len p) [
  | waiting p' ↦ none
  | received msg p' ↦ elim (receive_all count ticks token len p') [
    | none ↦ none
    | some ms ↦ some (msg ∷ ms)
  ]
]

abbrev pub cut_all : ℕ → List (List ℕ) → List (List ℕ)
cut_all len [] = []
cut_all len (msg ∷ ms) = take len msg ∷ cut_all len ms

forward_all-contents :
    (thread_of : ℕ → ℕ) (dst : ℕ) (ms held : List (List ℕ)) (p : Ports)
    → contents dst p ≡ some held
    → contents dst (forward_all thread_of dst ms p) ≡ some (held ++ ms)
unfolding forward_all
forward_all-contents thread_of dst [] held p e = e ∙ ap some (sym (append_nil held))
forward_all-contents thread_of dst (msg ∷ ms) held p e =
    elim (port_forward-Holds thread_of dst msg p) [
      | inl (absent, result, same) ↦ absurd (none_some (sym absent ∙ e))
      | inr (held', e', result, (now, others)) ↦
          let same : held' ≡ held = some_injective (sym e' ∙ e) in
          forward_all-contents thread_of dst ms (held ++ msg ∷ [])
            ((port_forward thread_of dst msg p).1) (now ∙ ap (λ h. some (h ++ msg ∷ [])) same)
          ∙ ap some (append_assoc held (msg ∷ []) ms)
    ]
  where
    none_some : {o : List (List ℕ)} → none ≡ some o → ⊥
    none_some absent = cc

    some_injective : {a b : List (List ℕ)} → some a ≡ some b → a ≡ b
    some_injective both = cc

receive_all-contents :
    (ticks token len : ℕ) (ms : List (List ℕ)) (p : Ports)
    → contents token p ≡ some ms
    → receive_all (length ms) ticks token len p ≡ some (cut_all len ms)
unfolding receive_all
receive_all-contents ticks token len [] p e = refl
receive_all-contents ticks token len (msg ∷ ms) p e =
    let (p', got, (held, others)) = port_receive-Holds ticks token len msg ms p e in
    rw (got, receive_all, receive_all-contents ticks token len ms p' held) refl

-- What was sent to an empty port comes out in the order in which it was sent, no message lost or doubled,
-- each cut at the size of the receiver's buffer.
pub receive_all-forward_all :
    (thread_of : ℕ → ℕ) (ticks token len : ℕ) (ms : List (List ℕ)) (p : Ports)
    → contents token p ≡ some []
    → receive_all (length ms) ticks token len (forward_all thread_of token ms p)
      ≡ some (cut_all len ms)
receive_all-forward_all thread_of ticks token len ms p e =
    receive_all-contents ticks token len ms (forward_all thread_of token ms p)
      (forward_all-contents thread_of token ms [] p e)
