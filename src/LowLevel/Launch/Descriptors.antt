-- ===== src/LowLevel/Launch/Descriptors.antt =====
-- The descriptors that spawn_start (low_level/spawn/mod.rs) opens and closes in the parent.
use core_shift.Base.{
  ℕ, ◌+◌, ◌≡◌, refl, Bool, Option, none, some, List, [], ◌∷◌, ◌++◌, Result, ok, err, arith,
  if◌then◌else◌, ◌==◌, inl, inr, Option-cases,
}
use core_shift.LowLevel.Libc.{SysError, syscall}
use core_shift.LowLevel.Io.Buffer.{EarlyExit}
use core_shift.LowLevel.Io.Drain
use core_shift.LowLevel.Io.Drain.{FdSlot, DrainState, slot, used_stdin}
use core_shift.LowLevel.Io.Drain.Slots.{in_slot, in_drain}
use core_shift.LowLevel.Launch.{
  SpawnOptions, System, Backend, Ends, Pipes, Outcome, Running, reading, writing, both, end_of,
  stdin_end, unused, all_ends, adopt, with_pipes, new_pipes, close_all, posix_calls, action_ops,
  attribute_ops, Listing, opened_directory, closed_directory, with_directory, with_attributes,
  with_actions, attach, given_up, spawn_posix_internal, spawn_fork_internal, by_backend,
  spawn_start, resolve_backend,
}

-- How often a descriptor stands in a list.
abbrev pub in_list : ℕ → List ℕ → ℕ
in_list fd [] = 0
in_list fd (d ∷ ds) = (if d == fd then 1 else 0) + in_list fd ds

abbrev pub held : ℕ → Result Running SysError → ℕ
held fd (err e) = 0
held fd (ok (pid, drain)) = in_drain fd drain

abbrev in_option : ℕ → Option ℕ → ℕ
in_option fd none = 0
in_option fd (some d) = if d == fd then 1 else 0

in_list-append : (fd : ℕ) (xs ys : List ℕ) → in_list fd (xs ++ ys) ≡ in_list fd xs + in_list fd ys
in_list-append fd [] ys = omega arith
in_list-append fd (x ∷ xs) ys = omega (arith, in_list-append fd xs ys)

module _ (fd : ℕ) (f : ℕ → Result (Unit {0}) SysError) (job_id : ℕ) where
  slot-fd :
      (kind : ℕ) (o : Option ℕ) (s : Option FdSlot)
      → slot f job_id kind o ≡ ok s
      → in_slot fd s ≡ in_option fd o
  unfolding slot
  slot-fd kind none s e = ground (arith, e)
  slot-fd kind (some d) s e = ground (arith, e)

  new-fd :
      (stdin_fd : Option ℕ) (buf : Option (List ℕ)) (out error : Option ℕ) (limit : ℕ)
      (early : EarlyExit) (d : DrainState)
      → Drain.new f job_id stdin_fd buf out error limit early ≡ ok d
      → in_drain fd d
        ≡ in_option fd (used_stdin stdin_fd buf) + (in_option fd out + in_option fd error)
  unfolding Drain.new
  new-fd stdin_fd buf out error limit early d e =
      ground (arith, e, slot-fd 1 (used_stdin stdin_fd buf), slot-fd 2 out, slot-fd 3 error)

module _ (fd : ℕ) where
  new-closed :
      (ends : Ends) (buf : Option (List ℕ))
      → in_list fd (writing ends)
        ≡ in_list fd (unused (writing ends) (used_stdin (stdin_end ends buf) buf))
          + in_option fd (used_stdin (stdin_end ends buf) buf)
  unfolding used_stdin
  new-closed none none = omega arith
  new-closed none (some b) = omega arith
  new-closed (some (r, w)) none = omega arith
  new-closed (some (r, w)) (some b) = ground arith

  both-ends :
      (ends : Ends) → in_list fd (both ends) ≡ in_list fd (reading ends) + in_list fd (writing ends)
  both-ends none = omega arith
  both-ends (some (r, w)) = omega arith

  end_of-reading : (ends : Ends) → in_option fd (end_of (reading ends)) ≡ in_list fd (reading ends)
  end_of-reading none = refl
  end_of-reading (some (r, w)) = omega arith

-- Each descriptor is closed or held as often as it is opened.
abbrev pub Accounted : ℕ → Outcome Running → Type 0
Accounted fd o = in_list fd o.opened ≡ in_list fd o.closed + held fd o.result

in_list-three :
    (fd : ℕ) (xs ys zs : List ℕ)
    → in_list fd (xs ++ (ys ++ zs)) ≡ in_list fd xs + (in_list fd ys + in_list fd zs)
in_list-three fd xs ys zs = omega (arith, in_list-append fd xs (ys ++ zs), in_list-append fd ys zs)

module _ (fd : ℕ) where
  -- The ends of the child and those of the parent.
  all_ends-split :
      (p : Pipes)
      → in_list fd (all_ends p)
        ≡ in_list fd (reading p.stdin ++ (writing p.stdout ++ writing p.stderr))
          + in_list fd (writing p.stdin ++ (reading p.stdout ++ reading p.stderr))
  all_ends-split p = omega (
    arith,
    in_list-three fd (both p.stdin) (both p.stdout) (both p.stderr),
    in_list-three fd (reading p.stdin) (writing p.stdout) (writing p.stderr),
    in_list-three fd (writing p.stdin) (reading p.stdout) (reading p.stderr),
    both-ends fd p.stdin,
    both-ends fd p.stdout,
    both-ends fd p.stderr,
  )

  adopt-Accounted :
      (pid : ℕ) (p : Pipes) (buf : Option (List ℕ)) (r : Result DrainState SysError)
      → let used = used_stdin (stdin_end p.stdin buf) buf in
        ((d : DrainState)
          → r ≡ ok d
          → in_drain fd d
            ≡ in_option fd used
              + (in_option fd (end_of (reading p.stdout))
                  + in_option fd (end_of (reading p.stderr))))
        → Accounted fd (adopt pid p used r)
  adopt-Accounted pid p buf (err e) h = omega (
    arith,
    all_ends-split p,
    in_list-append fd (reading p.stdin ++ (writing p.stdout ++ writing p.stderr))
        (writing p.stdin ++ (reading p.stdout ++ reading p.stderr)),
  )
  adopt-Accounted pid p buf (ok d) h = omega (
    arith,
    all_ends-split p,
    in_list-append fd (reading p.stdin ++ (writing p.stdout ++ writing p.stderr))
        (unused (writing p.stdin) (used_stdin (stdin_end p.stdin buf) buf)),
    in_list-three fd (writing p.stdin) (reading p.stdout) (reading p.stderr),
    h d refl,
    new-closed fd p.stdin buf,
    end_of-reading fd p.stdout,
    end_of-reading fd p.stderr,
  )

  new_pipes-Closed :
      (sys : System) (buf : Option (List ℕ)) (out error : Bool)
      → let pipes = new_pipes sys buf out error in
        (e : SysError) → pipes.result ≡ err e → pipes.closed ≡ pipes.opened
  unfolding new_pipes
  new_pipes-Closed sys buf out error e h = ground arith

module _ (fd : ℕ) (sys : System) (job_id : ℕ) (opts : SpawnOptions) where
  attach-Accounted : (p : Pipes) → Accounted fd (attach sys job_id opts p)
  unfolding attach
  attach-Accounted p =
      let stdin_fd = stdin_end p.stdin opts.stdin in
      adopt-Accounted fd sys.pid p opts.stdin
        (Drain.new sys.set_nonblock job_id stdin_fd opts.stdin (end_of (reading p.stdout))
          (end_of (reading p.stderr)) opts.max_output opts.early_exit)
        (new-fd fd sys.set_nonblock job_id stdin_fd opts.stdin (end_of (reading p.stdout))
          (end_of (reading p.stderr)) opts.max_output opts.early_exit)

  given_up-Accounted : (p : Pipes) (e : SysError) → Accounted fd (given_up p e)
  unfolding close_all
  given_up-Accounted p e = omega arith

  with_pipes-Accounted :
      (r : Result Pipes SysError) (pipes : Outcome Pipes) (go_on : Pipes → Outcome Running)
      → ((e : SysError) → r ≡ err e → pipes.closed ≡ pipes.opened)
      → ((p : Pipes) → Accounted fd (go_on p))
      → Accounted fd (with_pipes r pipes go_on)
  with_pipes-Accounted (err e) pipes go_on h g = ground (arith, h e refl)
  with_pipes-Accounted (ok p) pipes go_on h g = g p

  -- The directory is closed as often as it is opened.
  directory-closed :
      (listing : Option Listing)
      → in_list fd (opened_directory listing) ≡ in_list fd (closed_directory listing)
  unfolding opened_directory closed_directory
  directory-closed none = refl
  directory-closed (some l) = elim (Option-cases l.entries) [
    | inl e ↦ rw (e) refl
    | inr (entries, e) ↦ rw (e) refl
  ]

  with_directory-Accounted :
      (listing : Option Listing) (o : Outcome Running)
      → Accounted fd o
      → Accounted fd (with_directory listing o)
  with_directory-Accounted listing o h = omega (
    arith,
    h,
    in_list-append fd (opened_directory listing) o.opened,
    in_list-append fd (closed_directory listing) o.closed,
    directory-closed listing,
  )

  with_attributes-Accounted :
      (p : Pipes) (r : Result (Unit {0}) SysError)
      → Accounted fd (with_attributes sys job_id opts p r)
  with_attributes-Accounted p (err e) = given_up-Accounted p e
  with_attributes-Accounted p (ok u) = attach-Accounted p

  with_actions-Accounted :
      (p : Pipes) (r : Result (Unit {0}) SysError) → Accounted fd (with_actions sys job_id opts p r)
  with_actions-Accounted p (err e) = given_up-Accounted p e
  with_actions-Accounted p (ok u) =
      with_directory-Accounted sys.listing _
        (with_attributes-Accounted p (posix_calls sys.posix (attribute_ops opts.pgroup)))

  after_fork-Accounted :
      (p : Pipes) (r : Option ℕ)
      → Accounted fd
          (elim r [ some e ↦ given_up p (syscall e "fork") | none ↦ attach sys job_id opts p ])
  after_fork-Accounted p (some e) = given_up-Accounted p (syscall e "fork")
  after_fork-Accounted p none = attach-Accounted p

  by_backend-Accounted : (backend : Backend) → Accounted fd (by_backend sys job_id opts backend)
  unfolding spawn_posix_internal spawn_fork_internal
  by_backend-Accounted Backend.posix_spawn =
      let pipes = new_pipes sys opts.stdin opts.capture_stdout opts.capture_stderr in
      with_pipes-Accounted pipes.result pipes _
        (new_pipes-Closed fd sys opts.stdin opts.capture_stdout opts.capture_stderr)
        (λ p. with_actions-Accounted p (posix_calls sys.posix (action_ops p)))
  by_backend-Accounted Backend.fork =
      let pipes = new_pipes sys opts.stdin opts.capture_stdout opts.capture_stderr in
      with_pipes-Accounted pipes.result pipes _
        (new_pipes-Closed fd sys opts.stdin opts.capture_stdout opts.capture_stderr)
        (λ p. after_fork-Accounted p sys.fork)

  -- In either backend and whatever the system answers, each descriptor that the start opens in the
  -- parent, the ends of the pipes and the directory of open descriptors, is, once it is over, closed
  -- or held by the drain, exactly as often as it was opened; after an error all are closed.
  pub spawn_start-Accounted : Accounted fd (spawn_start sys job_id opts)
  unfolding spawn_start
  spawn_start-Accounted = by_backend-Accounted (resolve_backend sys opts)
