-- ===== src/Host/Firecracker/Waiting.antt =====
-- `wait_for_socket` of src/host_control_plane.rs, against the rounds it sees.
use fastenv.Base.{Text, Bool, true, false, List, [], ◌∷◌, ◌||◌, ok, err, ◌≡◌, ◌↔◌, arith}
use fastenv.Host.{Host, killed_child, VmError}
use fastenv.Host.Disk.{Machine}
use fastenv.Host.Firecracker.{
  Environment, Round, unknown, exited, alive, log, wait_late, wait_for_socket,
}

-- The socket is seen in some round, and the child is alive in every round before that.
abbrev pub appears : List Round → Round → Bool
appears [] last = last.socket
appears (round ∷ rounds) last =
    round.socket
    || (elim round.child [ unknown ↦ false | exited ↦ false | alive ↦ appears rounds last ])

module _ (machine : Machine) (env : Environment) (id : Text) where
  -- wait_for_socket returns Ok exactly if the socket is seen in some round, at the latest in the
  -- one after the deadline, and the child is alive in all rounds before that.
  pub wait_for_socket-ok :
      (rounds : List Round) (h : Host)
      → ((wait_for_socket machine env id rounds h).0 ≡ ok tt)
        ↔ (appears rounds env.last_round ≡ true)
  unfolding wait_for_socket wait_late
  wait_for_socket-ok [] h = ground arith
  wait_for_socket-ok (round ∷ rounds) h = ground (arith, wait_for_socket-ok rounds h)

  -- wait_for_socket kills the child exactly if it returns the time-out, and does nothing else.
  pub wait_for_socket-kill :
      (rounds : List Round) (h : Host)
      → (wait_for_socket machine env id rounds h).1
        ≡ (elim (wait_for_socket machine env id rounds h).0 [
          | err VmError.socket_timeout ↦ log (killed_child id) h
          | _ ↦ h
        ])
  unfolding wait_for_socket wait_late
  wait_for_socket-kill [] h = ground arith
  wait_for_socket-kill (round ∷ rounds) h = ground (arith, wait_for_socket-kill rounds h)
