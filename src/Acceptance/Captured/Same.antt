-- ===== src/Acceptance/Captured/Same.antt =====
-- What the nodes of a recovery have in common once they are accepted.
use highly_available_trailba.Prelude.{
  ◌≡◌, sym, subst, true, false, not, ◌&&◌, String, [], ◌∷◌, Option, none, some, Exc, Result, ok,
  raise, raise_if, raise_if-eq-ok, key_error, runtime_error, value_error, bind-eq-ok, ok-injective,
  &&-eq-true, not-eq-false, after_not,
}
use highly_available_trailba.Fallible.{◌>>=◌, ◌>>◌}
use highly_available_trailba.Py.Value.{
  Value, obj, end, bool, lookup, get, item, is_text, is_dict, py_eq,
}
use highly_available_trailba.Py.Access.{get_of}
use highly_available_trailba.Transition.Requests.{validate_cut}
use highly_available_trailba.Acceptance.Captured.{
  is_digest_table, is_source, support_files, source_config, is_idle, is_config_of, same_release,
  other_release, cold, other_identity, is_healthy_at, writer, get_or, is_false,
}

get-item : (v : Value) (k : String) {x : Value} → item v k ≡ ok x → get v k ≡ x
unfolding item get
get-item (obj fs) k {x} h = go (lookup fs k) h
  where
    go :
        (o : Option Value)
        → elim o as (λ _. Result Value) [ none ↦ raise (key_error k) | some v ↦ ok v ] ≡ ok x
        → elim o as (λ _. Value) [ none ↦ get (obj end) k | some v ↦ v ] ≡ x
    go none h = cc
    go (some v) h = ok-injective h
get-item v k h = cc

-- The binaries and the support files of a configuration are those of the source.
pub record IsRelease (config source : Value) : Type 0 where
  pub binaries : py_eq (get config "binaries") (get source "binaries") ≡ true
  pub support : py_eq (get config "support") (get source "support") ≡ true

same_release-IsRelease :
    (config source : Value) (e : Exc) {u : Unit {0}}
    → same_release config source e ≡ ok u
    → IsRelease config source
unfolding same_release
same_release-IsRelease config source e h =
    let supported = λ (support : Value). raise_if (not (py_eq (get config "support") support)) e in
    let rest = item source "support" >>= supported in
    let (binaries, a, h1) =
      bind-eq-ok (item source "binaries")
        (λ binaries. raise_if (not (py_eq (get config "binaries") binaries)) e >> rest) h in
    let (b, h2) = after_not (py_eq (get config "binaries") binaries) e rest h1 in
    let (support, c, h3) = bind-eq-ok (item source "support") supported h2 in
    let d = not-eq-false (py_eq (get config "support") support) (raise_if-eq-ok _ e h3) in
    record {
      binaries =
          subst (λ v. py_eq (get config "binaries") v ≡ true) (sym (get-item source "binaries" a))
            b;
      support =
          subst (λ v. py_eq (get config "support") v ≡ true) (sym (get-item source "support" c)) d;
    }

cold-IsRelease :
    (value operation epoch boot role source replica : Value) {v : Value}
    → cold value operation epoch boot role source replica ≡ ok v
    → IsRelease (get value "config") source × (is_idle value operation epoch boot ≡ true)
unfolding cold
cold-IsRelease value operation epoch boot role source replica h =
    let config = get value "config" in
    let replicated =
      raise_if (not (py_eq (get value "replica_config") replica)) other_release >> ok value in
    let released = same_release config source other_release >>= λ _. replicated in
    let configured = raise_if (not (is_config_of config role epoch)) other_release >> released in
    let (a, h1) = after_not (is_idle value operation epoch boot) _ configured h in
    let (_, h2) = after_not (is_config_of config role epoch) other_release released h1 in
    let (_, b, _) = bind-eq-ok (same_release config source other_release) (λ _. replicated) h2 in
    (same_release-IsRelease config source other_release b, a)

writer-IsRelease :
    (value epoch boot source : Value) {v : Value}
    → writer value epoch boot source ≡ ok v
    → IsRelease (get value "config") source
unfolding writer
writer-IsRelease value epoch boot source h =
    let config = get value "config" in
    let cut = validate_cut (get (get value "status") "positions") >>= λ _. ok value in
    let healthy = λ (named : Value).
      raise_if (not (is_healthy_at epoch named (get value "status")))
        (runtime_error "activated candidate is not a healthy writer")
      >> cut in
    let served = get_of (get_or value "status" (obj end)) "epoch" >>= healthy in
    let released = same_release config source other_identity >>= λ _. served in
    let roled = λ (role : Value).
      raise_if (not (is_text "writer" role && py_eq (get config "epoch") epoch)) other_identity
      >> released in
    let configured = get_of (get_or value "config" (obj end)) "role" >>= roled in
    let (_, h1) =
      after_not (is_dict value && py_eq (get value "boot_id") boot) other_identity configured h in
    let (role, _, h2) = bind-eq-ok (get_of (get_or value "config" (obj end)) "role") roled h1 in
    let (_, h3) =
      after_not (is_text "writer" role && py_eq (get config "epoch") epoch) other_identity released
        h2 in
    let (_, a, _) = bind-eq-ok (same_release config source other_identity) (λ _. served) h3 in
    same_release-IsRelease config source other_identity a

-- What a recovery knows of its source, its candidate while cold, and its candidate as the writer.
pub record OneRelease (source before after : Value) : Type 0 where
  pub binaries : is_digest_table ("trail" ∷ "litestream" ∷ []) (get source "binaries") ≡ true
  pub support : is_digest_table support_files (get source "support") ≡ true
  pub cold_release : IsRelease (get before "config") source
  pub writer_release : IsRelease (get after "config") source

-- When a recovery accepts the configuration of its source, its candidate while cold and the same candidate as the
-- writer, all three have one release: the source's binaries and support files are tables of SHA-256 digests
-- under exactly the fixed names, and those of the candidate's two configurations are equal to them.
pub source_config-cold-writer :
    (source epoch before operation cold_epoch boot role replica after new_epoch new_boot : Value)
    {s c w : Value}
    → source_config source epoch ≡ ok s
    → cold before operation cold_epoch boot role source replica ≡ ok c
    → writer after new_epoch new_boot source ≡ ok w
    → OneRelease source before after
unfolding source_config is_source
source_config-cold-writer source epoch before operation cold_epoch boot role replica after new_epoch
      new_boot hs hc hw =
    let wrong = value_error "captured source support identity is invalid" in
    let supported =
      raise_if (not (is_digest_table support_files (get source "support"))) wrong >> ok source in
    let (a, h1) = after_not (is_source source epoch) _ supported hs in
    let (b, _) =
      after_not (is_digest_table support_files (get source "support")) wrong (ok source) h1 in
    let (a1, _) = &&-eq-true _ (is_false (get_or source "bootstrap" (bool false))) a in
    let (_, c) =
      &&-eq-true _ (is_digest_table ("trail" ∷ "litestream" ∷ []) (get source "binaries")) a1 in
    record {
      binaries = c;
      support = b;
      cold_release = (cold-IsRelease before operation cold_epoch boot role source replica hc).0;
      writer_release = writer-IsRelease after new_epoch new_boot source hw;
    }
