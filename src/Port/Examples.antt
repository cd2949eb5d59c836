-- ===== src/Port/Examples.antt =====
-- Two ports of src/userspace/port.c, and the theorems about them.
use cobj_os.Prelude.{ℕ, ◌-◌, ◌^◌, ◌≡◌, refl, ◌⊎◌, none, some, [], ◌∷◌}
use cobj_os.Thread.{Thread, ready, blocked}
use cobj_os.Port.Forward.{Absent, FirstAt, Forwarded, port_forward-Forwarded}
use cobj_os.Port.{Port, Ports, port_lookup, lookup_from, port_forward, unblock}
use cobj_os.Port.Queue.{contents, forward_all, receive_all, receive_all-forward_all}

abbrev asleep : ℕ → Thread
asleep n = record {
  state = blocked;
  kernel_rsp_top = n;
  process = some n;
  waiting_for = 0;
  sleep_until = 0;
}

-- Port 7 is empty; port 9 holds two messages. The entry between them was destroyed.
abbrev two_ports : Ports
two_ports = record {
  port_table =
      some (record { token = 7; messages = []; owner = 1 })
      ∷ none
      ∷ some (record { token = 9; messages = (1 ∷ 2 ∷ 3 ∷ []) ∷ (4 ∷ []) ∷ []; owner = 2 })
      ∷ [];
  sched = record {
    threads = asleep;
    queue = [];
    curr_thread = 0;
    idle_thread = 0;
    kernel_rsp = 0;
    space = none;
  };
}

-- The owner of the port wakes.
forward_wakes : (((port_forward (λ n. n) 9 (5 ∷ []) two_ports).1).sched.threads 2).state ≡ ready
unfolding port_forward port_lookup lookup_from unblock
forward_wakes = refl

port_forward-Forwarded_example :
    (let (result, p') = port_forward (λ n. n) 9 (5 ∷ []) two_ports in
      (Absent 9 two_ports.port_table × (result ≡ 2 ^ 64 - 1) × (p' ≡ two_ports))
      ⊎ ((i : ℕ) × (port : Port) × FirstAt 9 two_ports.port_table i port
          × (result ≡ 1)
          × Forwarded (λ n. n) (5 ∷ []) i port two_ports p'))
port_forward-Forwarded_example = port_forward-Forwarded (λ n. n) 9 (5 ∷ []) two_ports

receive_all-forward_all_example :
    receive_all 2 0 7 2 (forward_all (λ n. n) 7 ((1 ∷ 2 ∷ 3 ∷ []) ∷ (4 ∷ []) ∷ []) two_ports)
    ≡ some ((1 ∷ 2 ∷ []) ∷ (4 ∷ []) ∷ [])
unfolding contents port_lookup lookup_from
receive_all-forward_all_example =
    receive_all-forward_all (λ n. n) 0 7 2 ((1 ∷ 2 ∷ 3 ∷ []) ∷ (4 ∷ []) ∷ []) two_ports refl
