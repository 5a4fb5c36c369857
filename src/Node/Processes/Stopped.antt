-- ===== src/Node/Processes/Stopped.antt =====
-- That a cut is taken only once the writer has stopped.
use highly_available_trailba.Prelude.{
  ◌≡◌, refl, sym, ◌∙◌, ap, subst, runtime_error, Bool, true, false, not, String, Option, none, some,
  Result, ok, raise, ok-injective, not-eq-false, Exc,
}
use highly_available_trailba.Exec.{Exec, throw_if, pure, modify, >>=-eq-ok, ◌>>=◌, ◌>>◌}
use highly_available_trailba.Py.Value.{Value}
use highly_available_trailba.Node.Positions.{is_cut}
use highly_available_trailba.Node.Processes.{
  ExitCode, is_graceful, Children, Quiesced, after_wait, unless_exited, await_exit, checked_exit,
  stop_uploader, quiesced, require_running, graceful_stop, quiesce_owned,
}

-- What the operating system promises: which processes run, that one whose exit `wait` reports has
-- stopped, and that ending one starts no other.
pub record ChildrenLaws {W : Type 0} (c : Children W) : Type 0 where
  pub runs : String → W → Bool
  pub wait-stopped :
      (name : String) (w : W) (e : ExitCode)
      → (c.wait name w).0 ≡ some e
      → runs name (c.wait name w).1 ≡ false
  pub wait-keeps :
      (name other : String) (w : W) → runs other w ≡ false → runs other (c.wait name w).1 ≡ false
  pub terminate-keeps :
      (name other : String) (w : W) → runs other w ≡ false → runs other (c.terminate name w) ≡ false

-- A step that starts no process.
abbrev pub StartsNone : {W A : Type 0} {c : Children W} → ChildrenLaws c → Exec W A → Type 0
StartsNone {W} laws m =
    (name : String) (w : W) → laws.runs name w ≡ false → laws.runs name (m w).1 ≡ false

throw_if-eq-ok :
    {W : Type 0} (b : Bool) (x : Exc) (w : W) {u : Unit {0}} {v : W}
    → throw_if b x w ≡ (ok u, v)
    → (b ≡ false) × (w ≡ v)
throw_if-eq-ok true x w h = let e = ap (λ (r : Result (Unit {0}) × _). r.0) h in cc
throw_if-eq-ok false x w h = (refl, ap (λ (r : Result (Unit {0}) × _). r.1) h)

module _ {W : Type 0} (c : Children W) (laws : ChildrenLaws c) where
  record StopsAt (name : String) (w : W) (code : ExitCode) (v : W) : Type 0 where
    pub stopped : laws.runs name v ≡ false
    pub graceful : is_graceful code ≡ true
    pub keeps : (other : String) → laws.runs other w ≡ false → laws.runs other v ≡ false

  after_wait_lem :
      (name : String) (r : Option ExitCode × W) {code : ExitCode} {v : W}
      → after_wait c name r ≡ (ok code, v)
      → r ≡ (some code, v)
  unfolding after_wait
  after_wait_lem name (some e, u) h = ap (λ (r : Result ExitCode × W). (code_of r.0, r.1)) h
    where
      code_of : Result ExitCode → Option ExitCode
      code_of (ok a) = some a
      code_of (raise x) = none
  after_wait_lem name (none, u) h = let e = ap (λ (r : Result ExitCode × W). r.0) h in cc

  unless_exited_lem :
      (r : Option ExitCode) (w : W) {t : Unit {0}} {v : W} → unless_exited c r w ≡ (ok t, v) → w ≡ v
  unfolding unless_exited
  unless_exited_lem none w h = ap (λ (r : Result (Unit {0}) × W). r.1) h
  unless_exited_lem (some e) w h = let e = ap (λ (r : Result (Unit {0}) × W). r.0) h in cc

  checked_exit_lem :
      (e : ExitCode) (w : W) {code : ExitCode} {v : W}
      → checked_exit c e w ≡ (ok code, v)
      → (is_graceful code ≡ true) × (e ≡ code) × (w ≡ v)
  unfolding checked_exit
  checked_exit_lem e w {code} {v} h = go (is_graceful e) refl
    where
      go : (b : Bool) → is_graceful e ≡ b → (is_graceful code ≡ true) × (e ≡ code) × (w ≡ v)
      go true q =
          let k : (ok e, w) ≡ (ok code, v) = sym (rw (checked_exit, q) refl) ∙ h in
          let same = ok-injective (ap (λ (r : Result ExitCode × W). r.0) k) in
          (subst (λ x. is_graceful x ≡ true) same q, same, ap (λ (r : Result ExitCode × W). r.1) k)
      go false q =
          let k : raise (runtime_error "process failed during graceful stop") ≡ ok code =
            sym (rw (checked_exit, q) refl) ∙ ap (λ (r : Result ExitCode × W). r.0) h in
          cc

  graceful_stop-StopsAt :
      (name : String) (w : W) {code : ExitCode} {v : W}
      → graceful_stop c name w ≡ (ok code, v)
      → StopsAt name w code v
  unfolding graceful_stop require_running await_exit
  graceful_stop-StopsAt name w {code} {v} h =
      let (_, w1, e1, h1) =
        >>=-eq-ok (require_running c name)
          (λ _. modify (c.terminate name) >> (await_exit c name >>= checked_exit c)) w h in
      let (e, w2, e2, h2) =
        >>=-eq-ok (await_exit c name) (checked_exit c) (c.terminate name w1) h1 in
      let (graceful, same, same_w) = checked_exit_lem e w2 h2 in
      let started = unless_exited_lem (c.poll name w) w e1 in
      let waited = after_wait_lem name (c.wait name (c.terminate name w1)) e2 in
      let ended : (c.wait name (c.terminate name w1)).1 ≡ v =
        ap (λ (r : Option ExitCode × W). r.1) waited ∙ same_w in
      record {
        stopped =
            subst (λ x. laws.runs name x ≡ false) ended
              (laws.wait-stopped name (c.terminate name w1) e
                (ap (λ (r : Option ExitCode × W). r.0) waited));
        graceful = graceful;
        keeps = λ other r.
            subst (λ x. laws.runs other x ≡ false) ended
              (laws.wait-keeps name other (c.terminate name w1) (
                laws.terminate-keeps name other w1
                  (subst (λ x. laws.runs other x ≡ false) started r)));
      }

  -- A node that reports a planned cut has stopped its writer before: when the cut is taken no "trail"
  -- runs, and at the end neither "trail" nor the uploader does. Both left by themselves or by the
  -- SIGTERM that they were sent, and the cut has a position for exactly the three databases.
  pub quiesce_owned-stopped :
      (sync : Exec W Value) (verify : Exec W (Unit {0}))
      → StartsNone laws sync
      → StartsNone laws verify
      → (w : W) {q : Quiesced} {v : W} → quiesce_owned c sync verify w ≡ (ok q, v)
      → ((t : W) × (u : W) × (sync t ≡ (ok q.cut, u)) × (laws.runs "trail" t ≡ false))
        × (is_cut q.cut ≡ true)
        × (is_graceful q.trail_exit ≡ true)
        × (is_graceful q.uploader_exit ≡ true)
        × (laws.runs "trail" v ≡ false)
        × (laws.runs "replicate" v ≡ false)
  unfolding quiesce_owned stop_uploader
  quiesce_owned-stopped sync verify quiet_sync quiet_verify w {q} {v} h =
      let (trail, w1, e1, h1) =
        >>=-eq-ok (graceful_stop c "trail") (λ trail. verify >> (sync >>= stop_uploader c trail)) w
          h in
      let (_, w2, e2, h2) = >>=-eq-ok verify (λ _. sync >>= stop_uploader c trail) w1 h1 in
      let (cut, w3, e3, h3) = >>=-eq-ok sync (stop_uploader c trail) w2 h2 in
      let (_, w4, e4, h4) =
        >>=-eq-ok (throw_if (not (is_cut cut)) (runtime_error "incomplete planned cut"))
          (λ _. graceful_stop c "replicate" >>= λ uploader. pure (quiesced c cut trail uploader)) w3
          h3 in
      let (valid, same) = throw_if-eq-ok (not (is_cut cut)) _ w3 e4 in
      let (uploader, w5, e5, h5) =
        >>=-eq-ok (graceful_stop c "replicate") (λ uploader. pure (quiesced c cut trail uploader))
          w4 h4 in
      let first = graceful_stop-StopsAt "trail" w e1 in
      let last = graceful_stop-StopsAt "replicate" w4 e5 in
      let is_q = ok-injective (ap (λ (r : Result Quiesced × W). r.0) h5) in
      let is_v = ap (λ (r : Result Quiesced × W). r.1) h5 in
      let t2 =
        subst (λ x. laws.runs "trail" x ≡ false) (ap (λ (r : Result (Unit {0}) × W). r.1) e2)
          (quiet_verify "trail" w1 first.stopped) in
      let t3 =
        subst (λ x. laws.runs "trail" x ≡ false) (ap (λ (r : Result Value × W). r.1) e3)
          (quiet_sync "trail" w2 t2) in
      let t5 = last.keeps "trail" (subst (λ x. laws.runs "trail" x ≡ false) same t3) in
      (
        (w2, w3, e3 ∙ ap (λ (x : Quiesced). (ok x.cut, w3)) is_q, t2),
        subst (λ (x : Quiesced). is_cut x.cut ≡ true) is_q (not-eq-false _ valid),
        subst (λ (x : Quiesced). is_graceful x.trail_exit ≡ true) is_q first.graceful,
        subst (λ (x : Quiesced). is_graceful x.uploader_exit ≡ true) is_q last.graceful,
        subst (λ x. laws.runs "trail" x ≡ false) is_v t5,
        subst (λ x. laws.runs "replicate" x ≡ false) is_v last.stopped,
      )
