-- ===== src/Port.antt =====
-- src/userspace/port.c: ports, to which processes send messages.
-- `port_table` is a list as long as `port_table_count`, and a port is named by its index in it. The
-- list of a port's nodes, from `head` to `tail`, is the list of their bytes. Memory for a node is taken
-- to be there: `kmalloc` panics where it is not. `none` is a write past the 1024 entries of the table.
pub mod Queue
pub mod Forward
mod Examples
use cobj_os.Prelude.{
  ℕ, zero, suc, ◌+◌, ◌-◌, ◌*◌, ◌/◌, ◌%◌, ◌^◌, bit_xor, Bool, true, false, not, ◌&&◌, ◌||◌, Option,
  none, some, List, [], ◌∷◌, ◌++◌, ltb, leb, ◌==◌, if◌then◌else◌, get_or, set, length, take,
}
use cobj_os.Thread.{Scheduler, ThreadState, ready, blocked, is_blocked, update, schedule}

pub record Port : Type 0 where
  pub token : ℕ
  pub messages : List (List ℕ)
  pub owner : ℕ

-- The table and the threads; a process's thread is given by `thread_of`.
pub record Ports : Type 0 where
  pub port_table : List (Option Port)
  pub sched : Scheduler

-- The token that is made of a reading of the time-stamp counter.
pub token_of : ℕ → ℕ
token_of counter =
    let v = bit_xor counter (counter / 2 ^ 33) in
    let w = v * 0xff51afd7ed558ccd % 2 ^ 64 in
    let x = bit_xor w (w / 2 ^ 33) in
    let y = x * 0xc4ceb9fe1a85ec53 % 2 ^ 64 in bit_xor y (y / 2 ^ 33)

-- The new port's index.
unfoldable pub port_create : (counter process : ℕ) → Ports → Option (ℕ × Ports)
port_create counter process p =
    let port : Port = record { token = token_of counter; messages = []; owner = process } in
    if ltb (length p.port_table) 1024
    then some (length p.port_table, record p { port_table = p.port_table ++ some port ∷ [] })
    else none

-- The first port with the token.
unfoldable pub lookup_from : ℕ → List (Option Port) → ℕ → Option (ℕ × Port)
lookup_from token [] i = none
lookup_from token (none ∷ table) i = lookup_from token table (i + 1)
lookup_from token (some port ∷ table) i =
    let rest = lookup_from token table (i + 1) in
    if port.token == token then some (i, port) else rest

unfoldable pub port_lookup : ℕ → Ports → Option (ℕ × Port)
port_lookup token p = lookup_from token p.port_table 0

-- `if (thread->state == THREAD_BLOCKED) thread->state = THREAD_READY;`
unfoldable pub unblock : ℕ → Scheduler → Scheduler
unblock t s =
    if is_blocked (s.threads t).state
    then record s { threads = update t (record (s.threads t) { state = ready }) s.threads }
    else s

-- `msg` holds the `len` bytes of the message. The result is `len`, or -1 as a `size_t`.
unfoldable pub port_forward : (ℕ → ℕ) → ℕ → List ℕ → Ports → ℕ × Ports
port_forward thread_of dst msg p = elim (port_lookup dst p) [
  | none ↦ (2 ^ 64 - 1, p)
  | some (i, port) ↦ (
    length msg,
    record {
      port_table = set p.port_table i (some (record port { messages = port.messages ++ msg ∷ [] }));
      sched = unblock (thread_of port.owner) p.sched;
    },
  )
]

-- `waiting`: the caller is blocked and has given up the processor; it looks again when it runs again.
pub data Receive : Type 0 where
  received : List ℕ → Ports → Receive
  waiting : Ports → Receive

-- The bytes that are copied to `buf`; their number is the result.
unfoldable pub port_receive : (ticks token len : ℕ) → Ports → Receive
port_receive ticks token len p = elim (port_lookup token p) [
  | none ↦ received [] p
  | some (i, port) ↦ elim (port.messages) [
    | [] ↦
        let self = p.sched.curr_thread in
        let stopped = record (p.sched.threads self) { state = blocked } in
        waiting (record p {
          sched = schedule ticks (record p.sched { threads = update self stopped p.sched.threads });
        })
    | msg ∷ messages ↦
        received (take len msg) (record p {
          port_table = set p.port_table i (some (record port { messages = messages }));
        })
  ]
]

-- The port at an index of the table; its nodes and itself are given back to the heap.
unfoldable pub port_destroy : (ℕ → ℕ) → ℕ → Port → Ports → Ports
port_destroy thread_of i port p = record {
  port_table = set p.port_table i none;
  sched = unblock (thread_of port.owner) p.sched;
}
