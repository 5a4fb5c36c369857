-- ===== src/Node/Processes.antt =====
-- hat/node.py: the planned stop of a writer (`graceful_stop`, `quiesce_owned`). The operating
-- system's processes are an interface.
pub mod Stopped
use highly_available_trailba.Prelude.{
  ℕ, ◌≡◌, Bool, true, false, ◌||◌, not, String, Option, none, some, ◌==◌, nat_eq, Result, ok, raise,
  runtime_error, if◌then◌else◌, Exc,
}
use highly_available_trailba.Exec.{Exec, pure, throw_if, modify, ◌>>=◌, ◌>>◌}
use highly_available_trailba.Py.Value.{Value}
use highly_available_trailba.Node.Positions.{is_cut}

-- What `Popen` gives: a code, or the signal that killed the process.
pub data ExitCode : Type 0 where
  exited killed_by : ℕ → ExitCode

-- `code in (0, -signal.SIGTERM)`
unfoldable pub is_graceful : ExitCode → Bool
is_graceful (exited n) = n == 0
is_graceful (killed_by n) = n == 15

-- The operations on owned processes, by name. `wait` gives none at its timeout.
pub record Children (W : Type 0) : Type 0 where
  pub poll : String → W → Option ExitCode
  pub terminate : String → W → W
  pub wait : String → W → Option ExitCode × W
  pub kill : String → W → W

-- What a quiesced node reports.
pub record Quiesced : Type 0 where
  pub cut : Value
  pub trail_exit : ExitCode
  pub uploader_exit : ExitCode

module _ {W : Type 0} (c : Children W) where
  -- a kill if the time is over
  unfoldable pub after_wait : String → Option ExitCode × W → Result ExitCode × W
  after_wait name (some e, w) = (ok e, w)
  after_wait name (none, w) =
      (raise (runtime_error "forced stop cannot establish a planned cut"), c.kill name w)

  -- `try: child.wait(timeout) except TimeoutExpired: ...`
  unfoldable pub await_exit : String → Exec W ExitCode
  unfolding after_wait
  await_exit name w = after_wait name (c.wait name w)

  unfoldable pub unless_exited : Option ExitCode → Exec W (Unit {0})
  unless_exited none w = (ok tt, w)
  unless_exited (some e) w = (raise (runtime_error "mutator exited before graceful stop"), w)

  unfoldable pub require_running : String → Exec W (Unit {0})
  unfolding unless_exited
  require_running name w = unless_exited (c.poll name w) w

  -- `if code not in (0, -signal.SIGTERM): raise`
  unfoldable pub checked_exit : ExitCode → Exec W ExitCode
  unfolding is_graceful
  checked_exit code w =
      if is_graceful code
      then (ok code, w)
      else (raise (runtime_error "process failed during graceful stop"), w)

  unfoldable pub graceful_stop : String → Exec W ExitCode
  unfolding require_running await_exit
  graceful_stop name = do
    require_running name
    modify (c.terminate name)
    code ← await_exit name
    checked_exit code

  abbrev pub quiesced : Value → ExitCode → ExitCode → Quiesced
  quiesced cut trail uploader = record { cut = cut; trail_exit = trail; uploader_exit = uploader }

  -- the uploader's stop, of a cut that names the three databases
  unfoldable pub stop_uploader : ExitCode → Value → Exec W Quiesced
  stop_uploader trail cut = do
    throw_if (not (is_cut cut)) (runtime_error "incomplete planned cut")
    uploader ← graceful_stop "replicate"
    pure (quiesced cut trail uploader)

  unfoldable pub quiesce_owned : Exec W Value → Exec W (Unit {0}) → Exec W Quiesced
  quiesce_owned sync verify_mutators_stopped = do
    trail ← graceful_stop "trail"
    verify_mutators_stopped
    cut ← sync
    stop_uploader trail cut
