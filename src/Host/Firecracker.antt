-- ===== src/Host/Firecracker.antt =====
-- The boot and the shutdown of a Firecracker process in src/host_control_plane.rs. What the
-- process and the clock do is a parameter: each loop sees some rounds before its deadline and one
-- after it.
pub mod Waiting
use fastenv.Base.{
  ℕ, ◌^◌, parse_unsigned, Text, text, list_eq, Bool, true, false, List, [], ◌∷◌, ◌++◌, map, ◌==◌,
  nat_Eq, list_Eq, ◌||◌, ◌&&◌, not, is_whitespace, if◌then◌else◌, Option, none, some, Result, ok,
  err, Io, ◌>>=◌, ◌>>◌,
}
use fastenv.Os.Paths.{FilePath, join}
use fastenv.Host.{
  Host, HostCall, open_file, remove_file, spawn, try_wait, curl, Event, spawned, api_put,
  killed_child, killed_pid, Node, file, ProjectVmRecord, VmState, running, stopped, VmError,
  binary_not_found, kvm_unavailable, process_exited, socket_timeout, api_failed, io, Action,
}
use fastenv.Host.Disk.{Machine, exists, write_at}

-- What `try_wait` says of the child.
pub data Child : Type 0 where
  unknown exited alive : Child

pub record Round : Type 0 where
  pub socket : Bool
  pub child : Child

pub record Environment : Type 0 where
  pub binary_exists : Bool
  pub kvm_exists : Bool
  pub kvm_opens : Bool
  pub rounds : List Round
  pub last_round : Round
  -- The output of curl for a call at an endpoint, or `none` if it cannot run.
  pub answer : Text → Option Text
  pub pid : Text
  pub pid_writes : Bool
  -- Whether the socket is there in each round of the shutdown, and after it.
  pub stop_rounds : List Bool
  pub lingers : Bool

abbrev pub reverse_onto : Text → Text → Text
reverse_onto [] acc = acc
reverse_onto (c ∷ s) acc = reverse_onto s (c ∷ acc)

unfoldable pub trim_start : Text → Text
trim_start [] = []
trim_start (c ∷ s) = let rest = trim_start s in if is_whitespace c then rest else c ∷ s

unfoldable pub trim : Text → Text
unfolding trim_start is_whitespace
trim s = reverse_onto (trim_start (reverse_onto (trim_start s) [])) []

-- `raw.rfind('\n')`: the text before the last newline, and the text after it.
unfoldable pub split_last_line : Text → Option (Text × Text)
split_last_line [] = none
split_last_line (c ∷ s) = elim (split_last_line s) [
  | some (body, code) ↦ some (c ∷ body, code)
  | none ↦ if c == 10 then some ([], s) else none
]

unfoldable pub split_curl_output : Text → Text × Text
unfolding split_last_line trim
split_curl_output raw = elim (split_last_line raw) [
  | some (body, code) ↦ (body, trim code)
  | none ↦ (raw, text "000")
]

abbrev pub is_success : Text → Bool
unfolding list_eq
is_success code = code == text "204" || code == text "200"

abbrev pub answered : Text → Option Text → Result VmError Unit
answered endpoint none = err (io (curl endpoint))
answered endpoint (some raw) =
    if is_success (split_curl_output raw).1 then ok tt else err (api_failed endpoint)

abbrev pub log : Event → Host → Host
log e h = record h { events = h.events ++ e ∷ [] }

abbrev pub pid_path : ProjectVmRecord → FilePath
pid_path r = r.vm_dir ++ text "firecracker.pid" ∷ []

abbrev pub log_path : ProjectVmRecord → FilePath
log_path r = r.logs_dir ++ text "firecracker.log" ∷ []

-- `match child.try_wait()?`: what is done with a child that is alive is the last argument.
abbrev pub on_child : Child → Host → Result VmError Unit × Host → Result VmError Unit × Host
on_child unknown h r = (err (io try_wait), h)
on_child exited h r = (err process_exited, h)
on_child alive h r = r

module _ (machine : Machine) (env : Environment) where
  unfoldable pub firecracker_api_put : FilePath → Text → Action Unit
  unfolding split_curl_output
  firecracker_api_put sock endpoint h =
      (answered endpoint (env.answer endpoint), log (api_put sock endpoint) h)

  unfoldable pub check_kvm_access : Action Unit
  check_kvm_access h =
      if env.kvm_exists && env.kvm_opens then (ok tt, h) else (err kvm_unavailable, h)

  -- The round after the deadline, in which a child that is still alive is killed.
  unfoldable pub wait_late : Text → Round → Action Unit
  wait_late id round h =
      if round.socket
      then (ok tt, h)
      else on_child round.child h (err socket_timeout, log (killed_child id) h)

  unfoldable pub wait_for_socket : Text → List Round → Action Unit
  unfolding wait_late
  wait_for_socket id [] h = wait_late id env.last_round h
  wait_for_socket id (round ∷ rounds) h =
      let later = wait_for_socket id rounds h in
      if round.socket then (ok tt, h) else on_child round.child h later

  abbrev pub remove_stale_socket : FilePath → Action Unit
  remove_stale_socket sock h =
      if exists h sock
      then (if machine.fails (remove_file sock)
          then (err (io (remove_file sock)), h)
          else (ok tt, write_at sock none h))
      else (ok tt, h)

  abbrev pub open_log : FilePath → Action Unit
  open_log p h = if machine.fails (open_file p) then (err (io (open_file p)), h) else (ok tt, h)

  abbrev pub spawn_child : ProjectVmRecord → Action Unit
  spawn_child r h =
      if machine.fails spawn
      then (err (io spawn), h)
      else (ok tt, log (spawned r.project_id r.firecracker_sock) h)

  -- The socket that the child has made is on the disk.
  abbrev pub socket_appeared : FilePath → Action Unit
  socket_appeared sock h = (ok tt, write_at sock (some (file [])) h)

  abbrev pub write_pid : ProjectVmRecord → Action Unit
  write_pid r h =
      (ok tt, if env.pid_writes then write_at (pid_path r) (some (file env.pid)) h else h)

  abbrev pub require_binary : Action Unit
  require_binary h = if env.binary_exists then (ok tt, h) else (err binary_not_found, h)

  -- The calls of the boot sequence, 7a to 7d.
  unfoldable pub boot_calls : FilePath → Action Unit
  boot_calls sock = do
    firecracker_api_put sock (text "/boot-source")
    firecracker_api_put sock (text "/drives/rootfs")
    firecracker_api_put sock (text "/machine-config")
    firecracker_api_put sock (text "/actions")

  -- The record of a VM that has booted.
  unfoldable pub boot_firecracker : ProjectVmRecord → Action ProjectVmRecord
  boot_firecracker r = do
    require_binary
    check_kvm_access
    remove_stale_socket r.firecracker_sock
    open_log (log_path r)
    spawn_child r
    wait_for_socket r.project_id env.rounds
    socket_appeared r.firecracker_sock
    boot_calls r.firecracker_sock
    write_pid r
    λ h. (ok (record r { state = running }), h)

  -- Whether the socket is still there after the rounds of the shutdown.
  unfoldable pub poll_socket : List Bool → Bool
  poll_socket [] = env.lingers
  poll_socket (there ∷ rounds) = let later = poll_socket rounds in if there then later else false

  abbrev pub kill_pid : Option ℕ → Host → Host
  kill_pid none h = h
  kill_pid (some pid) h = log (killed_pid pid) h

  -- A PID file that is not there or does not hold a `u32` kills nothing.
  unfoldable pub kill_by_pid : Option Node → Host → Host
  unfolding trim parse_unsigned
  kill_by_pid (some (file pid)) h = kill_pid (parse_unsigned (2 ^ 32) (trim pid)) h
  kill_by_pid (some Node.directory) h = h
  kill_by_pid none h = h

  -- `fs::remove_file(path).ok()`
  abbrev pub remove_quietly : FilePath → Host → Host
  remove_quietly p h = if machine.fails (remove_file p) then h else write_at p none h

  -- A socket that is still there after the last round is removed, and its process killed.
  unfoldable pub end_process : ProjectVmRecord → Host → Host
  unfolding poll_socket kill_by_pid
  end_process r h =
      if poll_socket env.stop_rounds
      then remove_quietly r.firecracker_sock (kill_by_pid (h.disk (pid_path r)) h)
      else write_at r.firecracker_sock none h

  -- Every error is ignored.
  unfoldable pub stop_firecracker : ProjectVmRecord → Host → ProjectVmRecord × Host
  unfolding firecracker_api_put end_process
  stop_firecracker r h =
      if exists h r.firecracker_sock
      then (
        record r { state = stopped },
        remove_quietly (pid_path r)
            (end_process r (firecracker_api_put r.firecracker_sock (text "/actions") h).1),
      )
      else (record r { state = stopped }, h)
