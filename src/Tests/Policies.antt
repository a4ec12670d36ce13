-- ===== src/Tests/Policies.antt =====
-- The theorems on the eBPF policy of a VM, at concrete inputs.
use fastenv.Base.{
  text, false, none, some, ok, ◌≡◌, refl, nat_Eq, list_Eq, list_eq, is_whitespace, has_char,
  strip_prefix, from_utf8, ◌>>=◌,
}
use fastenv.HostEbpf.AttachPoint.{parse_attach_point, tc_handle, dir_str}
use fastenv.HostEbpf.Elf.{
  read_cstr, read_u16_le, read_u32_le, read_u64_le, from_le, get, elf_header, section_header,
  section_bytes, read_section_data, is_bpf_prog_section, infer_prog_type_from_section, until_zero,
  trim_end_zeros,
}
use fastenv.HostEbpf.Elf.Numbers.{to_le}
use fastenv.HostEbpf.Object.{
  load_bpf_object_file, infer_tc_section, check_program, scan_sections, scan_section, is_skipped,
  take_section, find_tc_section, tc_name, is_tc_section,
}
use fastenv.HostEbpf.Load.{
  LoadedEbpfPolicy, load_and_attach_host_ebpf, load_bpf_prog_from_object, attach_loaded,
  tc_attach_bpf, tc_command,
}
use fastenv.HostEbpf.Load.Detaching.{Gone, Detachable}
use fastenv.Host.{Host, ProjectVmRecord, HostEbpfPolicy}
use fastenv.Host.Disk.{
  vm_dir, persist_record, create_dirs, load_project_vm, validate_project_id, ensure_empty_file,
  ensure_vm_layout,
}
use fastenv.Host.Supervisor.{
  new_record, finish, with_loaded, load_host_ebpf_policy, destroy_project_vm, destroy_stopped,
  provision_project_vm, load_or_create, create_project_vm,
}
use fastenv.Host.Supervisor.Release.{destroy_project_vm-load_host_ebpf_policy}
use fastenv.Tests.Machines.{healthy_machine, machine-IsCodec}
use fastenv.Tests.Loads.{object_path, tools-TcDeletes}
use fastenv.Tests.Hosts.{root, spec, now, with_p, with_p-IsWellFormed}

abbrev policy : HostEbpfPolicy
policy = record {
  name = text "n";
  attach_point = text "tc-ingress:tap0";
  object_path = object_path;
  tc_attach_handle = none;
  pin_path = none;
  loaded_at = none;
}

-- The host with the policy loaded, and after the project is destroyed.
abbrev with_policy : Host
with_policy = (load_host_ebpf_policy healthy_machine root now (text "p") policy with_p).1

abbrev without : Host
without = (destroy_project_vm healthy_machine root now (text "p") with_policy).1

abbrev loaded : LoadedEbpfPolicy
loaded = record {
  prog_fd = 7;
  tc_handle = some (text "tc:tap0:ingress");
  pin_path = none;
  loaded_at = now;
}

abbrev policy_record : ProjectVmRecord
policy_record = record (new_record root spec now) {
  host_ebpf_policy = some (with_loaded policy loaded);
}

policy_loads :
    load_host_ebpf_policy healthy_machine root now (text "p") policy with_p
    ≡ (ok policy_record, with_policy)
unfolding load_host_ebpf_policy provision_project_vm validate_project_id is_whitespace
    ensure_empty_file ensure_vm_layout load_or_create create_project_vm finish persist_record
    create_dirs load_project_vm new_record vm_dir list_eq ◌>>=◌ load_and_attach_host_ebpf
    load_bpf_prog_from_object attach_loaded tc_attach_bpf tc_command parse_attach_point strip_prefix
    tc_handle dir_str load_bpf_object_file to_le get from_le read_u16_le read_u32_le read_u64_le
    elf_header section_header section_bytes read_section_data scan_sections scan_section is_skipped
    take_section read_cstr until_zero is_bpf_prog_section infer_prog_type_from_section check_program
    trim_end_zeros from_utf8 infer_tc_section find_tc_section tc_name is_tc_section
policy_loads = refl

policy_goes : destroy_project_vm healthy_machine root now (text "p") with_policy ≡ (ok tt, without)
unfolding load_host_ebpf_policy provision_project_vm validate_project_id is_whitespace
    ensure_empty_file ensure_vm_layout load_or_create create_project_vm finish persist_record
    create_dirs load_project_vm new_record vm_dir list_eq ◌>>=◌ load_and_attach_host_ebpf
    load_bpf_prog_from_object attach_loaded tc_attach_bpf tc_command parse_attach_point strip_prefix
    tc_handle dir_str load_bpf_object_file to_le get from_le read_u16_le read_u32_le read_u64_le
    elf_header section_header section_bytes read_section_data scan_sections scan_section is_skipped
    take_section read_cstr until_zero is_bpf_prog_section infer_prog_type_from_section check_program
    trim_end_zeros from_utf8 infer_tc_section find_tc_section tc_name is_tc_section
    destroy_project_vm destroy_stopped
policy_goes = refl

tap0_detaches : Detachable (parse_attach_point policy.attach_point)
unfolding parse_attach_point strip_prefix has_char
tap0_detaches = refl

destroy_project_vm-load_host_ebpf_policy_example :
    (held : LoadedEbpfPolicy) × Gone
      (parse_attach_point policy.attach_point)
      held
      with_p.kernel
      without.kernel
    × (policy_record.host_ebpf_policy ≡ some (with_loaded policy held))
destroy_project_vm-load_host_ebpf_policy_example =
    destroy_project_vm-load_host_ebpf_policy healthy_machine root (machine-IsCodec (λ c. false))
      tools-TcDeletes (λ p. refl) now now (text "p") policy with_p with_policy without policy_record
      with_p-IsWellFormed tap0_detaches policy_loads policy_goes
