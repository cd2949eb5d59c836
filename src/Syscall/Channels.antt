-- ===== src/Syscall/Channels.antt =====
-- The system calls on ports of src/userspace/syscall.c. A process holds indices into the table of ports.
pub mod Held
use cobj_os.Prelude.{
  ℕ, zero, suc, ◌+◌, ◌^◌, Bool, true, false, not, ◌&&◌, Option, none, some, List, [], ◌∷◌, ◌==◌,
  if◌then◌else◌, get_or, set,
}
use cobj_os.Prelude.Ints.{ℤ, pos, negsuc}
use cobj_os.Prelude.Outcome.{Outcome, ok, panic, ◌>>=◌, dangling_port}
use cobj_os.Port.{
  Port, Ports, token_of, port_create, port_forward, Receive, received, waiting, port_receive,
  port_destroy,
}
use cobj_os.Kernel.{Process, Kernel, put_process, thread_of}

-- The first place that holds no port, from place `i` on.
unfoldable pub free_place : List (Option ℕ) → ℕ → Option ℕ
free_place [] i = none
free_place (none ∷ held) i = some i
free_place (some port ∷ held) i = free_place held (i + 1)

pub data Place : Type 0 where
  not_held : Place
  held_at : (place index : ℕ) → Port → Place

-- The first place that holds a port with the token.
unfoldable pub held_place : ℕ → List (Option Port) → List (Option ℕ) → ℕ → Outcome Place
held_place token table [] i = ok not_held
held_place token table (none ∷ held) i = held_place token table held (i + 1)
held_place token table (some index ∷ held) i =
    let rest = held_place token table held (i + 1) in
    elim (get_or table index none) [
      | none ↦ panic dangling_port
      | some port ↦ if port.token == token then ok (held_at i index port) else rest
    ]

-- The bytes that are received, or -1; a caller that has to wait has been blocked.
pub data PortReply (S : Type 0) : Type 0 where
  refused : PortReply S
  message : List ℕ → Kernel S → PortReply S
  blocked_on : Kernel S → PortReply S

module _ {S : Type 0} where
  abbrev pub put_port : ℕ → ℕ → Option ℕ → Kernel S → Kernel S
  put_port p place v k =
      put_process p (record (k.procs p) { ports = set (k.procs p).ports place v }) k

  -- `counter` is the reading of the time-stamp counter; a full table of ports is written past its end.
  -- The port stays in the table also where the process has no place for it.
  unfoldable pub sys_port_create : (counter p : ℕ) → Kernel S → Outcome (ℕ × Kernel S)
  sys_port_create counter p k = elim (port_create counter p k.ports) [
    | none ↦ panic dangling_port
    | some (index, ports) ↦ elim (free_place (k.procs p).ports 0) [
      | none ↦ ok (0, record k { ports = ports })
      | some place ↦
          ok (token_of counter, put_port p place (some index) (record k { ports = ports }))
    ]
  ]

  abbrev pub receive_reply : Kernel S → Receive → PortReply S
  receive_reply k (received buf ports) = message buf (record k { ports = ports })
  receive_reply k (waiting ports) = blocked_on (record k { ports = ports })

  unfoldable pub receive_at : (ticks token len : ℕ) → Kernel S → Place → PortReply S
  receive_at ticks token len k not_held = refused
  receive_at ticks token len k (held_at i index port) =
      receive_reply k (port_receive ticks token len k.ports)

  unfoldable pub sys_port_receive : (ticks p token len : ℕ) → Kernel S → Outcome (PortReply S)
  sys_port_receive ticks p token len k =
      held_place token k.ports.port_table (k.procs p).ports 0 >>= λ place.
      ok (receive_at ticks token len k place)

  unfoldable pub destroy_at : (p : ℕ) → Kernel S → Place → ℤ × Kernel S
  destroy_at p k not_held = (negsuc 0, k)
  destroy_at p k (held_at i index port) = (
    pos 0,
    put_port p i none (record k { ports = port_destroy (thread_of k) index port k.ports }),
  )

  unfoldable pub sys_port_destroy : (p token : ℕ) → Kernel S → Outcome (ℤ × Kernel S)
  sys_port_destroy p token k =
      held_place token k.ports.port_table (k.procs p).ports 0 >>= λ place. ok (destroy_at p k place)
