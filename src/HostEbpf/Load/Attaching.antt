-- ===== src/HostEbpf/Load/Attaching.antt =====
-- What loading and attaching a program has done.
use fastenv.Base.{
  ℕ, Text, ◌≡◌, refl, ◌∙◌, sym, subst, nat_Eq, list_Eq, Outcome, returned, raised, Outcome-bind,
  Outcome-if, Outcome-weaken,
}
use fastenv.Os.Paths.{FilePath}
use fastenv.HostEbpf.AttachPoint.{AttachPoint, tc, tracepoint, kprobe, raw, parse_attach_point}
use fastenv.HostEbpf.Load.{
  Kernel, Tools, is_some, load_bpf_prog_from_object, attach_loaded, load_and_attach_host_ebpf,
}
use fastenv.HostEbpf.Load.Steps.{
  Attached, Unpinned, InKernel, load_program, attach_filter, attach_pin, pin_bpf_prog-Pins,
}

module _ (tools : Tools) (now project_id name : Text) (object_path : FilePath) where
  attach_program :
      (point : AttachPoint) (fd : ℕ) (k k1 : Kernel)
      → InKernel tools now project_id name object_path point k fd k1
      → Outcome
          (Attached tools now project_id name object_path point k)
          (Unpinned tools now project_id name object_path k)
          (attach_loaded tools now project_id name object_path point fd k1)
  unfolding attach_loaded
  attach_program (tc device direction) fd k k1 l =
      Outcome-weaken
        (attach_filter tools now project_id name object_path device direction fd k k1 l)
        (λ p s h. h) (λ e s h. h.same_bpffs ∙ l.same_bpffs)
  attach_program (tracepoint category event) fd k k1 l =
      Outcome-weaken
        (attach_pin tools now project_id name object_path _ fd k k1 _ l
          (pin_bpf_prog-Pins tools now project_id name object_path _ k1))
        (λ p s h. record { loaded = h.0; held = h.1; hooked = tt }) (λ e s h. h)
  attach_program (kprobe function) fd k k1 l =
      Outcome-weaken
        (attach_pin tools now project_id name object_path _ fd k k1 _ l
          (pin_bpf_prog-Pins tools now project_id name object_path _ k1))
        (λ p s h. record { loaded = h.0; held = h.1; hooked = tt }) (λ e s h. h)
  attach_program (raw s) fd k k1 l =
      Outcome-weaken
        (attach_pin tools now project_id name object_path _ fd k k1 _ l
          (pin_bpf_prog-Pins tools now project_id name object_path _ k1))
        (λ p s h. record { loaded = h.0; held = h.1; hooked = tt }) (λ e s h. h)

  -- A load_and_attach_host_ebpf that succeeds has read an object that the reader accepts, has its
  -- program, of the type that the object or else the attach point gives, as the latest one of the
  -- kernel with the descriptor that it returns, and returns the handle of the filter and no pin,
  -- having run `tc` for the clsact and then, with success, for a filter with the section that
  -- infer_tc_section gives, whose filters the kernel now has, and left the BPF file system alone,
  -- or no handle and at most the pin of the program, which is there, having left the filters alone;
  -- one that fails has pinned nothing.
  pub load_and_attach_host_ebpf-Attached :
      (point : Text) (k : Kernel)
      → Outcome
          (Attached tools now project_id name object_path (parse_attach_point point) k)
          (Unpinned tools now project_id name object_path k)
          (load_and_attach_host_ebpf tools now project_id name object_path point k)
  unfolding load_and_attach_host_ebpf
  load_and_attach_host_ebpf-Attached point k =
      Outcome-bind _ _ k
        (Outcome-if {P = λ _ s. s ≡ k} (is_some (k.objects object_path)) (λ _. returned refl)
          (λ _. raised refl))
        (λ _ s e.
          Outcome-bind _ _ s
            (subst
              (λ t.
                Outcome
                  (InKernel tools now project_id name object_path (parse_attach_point point) k)
                  (Unpinned tools now project_id name object_path k)
                  (load_bpf_prog_from_object tools object_path name (parse_attach_point point) t))
              (sym e)
              (load_program tools now project_id name object_path (parse_attach_point point) k))
            (λ fd k1 l. attach_program (parse_attach_point point) fd k k1 l))
