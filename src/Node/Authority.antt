-- ===== src/Node/Authority.antt =====
-- hat/node.py: the activation file, which alone lets a node write (`authorized`, `authority`,
-- `activate`).
use Prim.Native.Nat.{bit_and}
use highly_available_trailba.Prelude.{
  ℕ, ◌≡◌, refl, sym, ◌∙◌, Bool, true, false, ◌&&◌, ◌||◌, not, String, [], ◌∷◌, Option, none, some,
  ◌==◌, nat_eq, string_eq, eq_iff, beq_refl, contains, ap, ◌⊎◌, inl, inr, Bool-cases, ||-eq-false,
  not-eq-false, ok, raise, Exc, value_error, os_error, if◌then◌else◌, arith, &&-eq-true,
}
use highly_available_trailba.Exec.{Exec}
use highly_available_trailba.Py.Value.{Value, obj, str, dict, has_keys, get, is_text, keys, lookup}

-- A file that holds an activation. `contents` is what its JSON says, or none if it is no JSON.
pub record AuthorityFile : Type 0 where
  pub is_symlink : Bool
  pub is_regular : Bool
  pub uid : ℕ
  pub mode : ℕ
  pub nlink : ℕ
  pub contents : Option Value

-- `record == dict(role=role, epoch=epoch, boot_id=boot_id)`, key by key
unfoldable pub authorized : String → String → String → Value → Bool
unfolding has_keys get is_text
authorized role epoch boot_id record_of =
    role == "writer"
    && (has_keys ("role" ∷ "epoch" ∷ "boot_id" ∷ []) record_of
        && is_text role (get record_of "role")
        && is_text epoch (get record_of "epoch")
        && is_text boot_id (get record_of "boot_id"))

unfoldable pub file_authority : String → String → String → AuthorityFile → Bool
unfolding authorized
file_authority role epoch boot_id f =
    if f.is_symlink || not (f.uid == 0) || not (bit_and f.mode 0o022 == 0)
    then false
    else elim f.contents [ none ↦ false | some v ↦ authorized role epoch boot_id v ]

unfoldable pub authority : String → String → String → Option AuthorityFile → Bool
unfolding file_authority
authority role epoch boot_id none = false
authority role epoch boot_id (some f) = file_authority role epoch boot_id f

-- what `activate` writes, as root with the mode 0o644
unfoldable pub activation : String → String → AuthorityFile
activation epoch boot_id = record {
  is_symlink = false;
  is_regular = true;
  uid = 0;
  mode = 0o644;
  nlink = 1;
  contents =
      some (
        obj (dict (("role", str "writer") ∷ ("epoch", str epoch) ∷ ("boot_id", str boot_id) ∷ [])));
}

-- `activate` of a node with this role, epoch and boot, up to the start of its service
unfoldable pub activate : ℕ → String → String → String → Exec (Option AuthorityFile) (Unit {0})
unfolding activation
activate euid role epoch boot_id f =
    if not (euid == 0) || not (role == "writer")
    then (raise (value_error "only root may activate the designated D1 writer"), f)
    else elim f [
      | none ↦ (ok tt, some (activation epoch boot_id))
      | some g ↦ (raise (os_error "file exists"), some g)
    ]

is_text_iff : (s : String) (v : Value) → is_text s v ≡ true → v ≡ str s
unfolding is_text
is_text_iff s (str t) h = ground (arith, eq_iff s t)
is_text_iff s v h = cc

pub authorized_lem :
    (role epoch boot_id : String) (v : Value)
    → authorized role epoch boot_id v ≡ true
    → (role ≡ "writer") × (get v "epoch" ≡ str epoch) × (get v "boot_id" ≡ str boot_id)
unfolding authorized
authorized_lem role epoch boot_id v h =
    let (a, b) = &&-eq-true (role == "writer") _ h in
    let (c, d) =
      &&-eq-true
        (has_keys ("role" ∷ "epoch" ∷ "boot_id" ∷ []) v
          && is_text role (get v "role")
          && is_text epoch (get v "epoch"))
        _ b in
    let (e, g) =
      &&-eq-true (has_keys ("role" ∷ "epoch" ∷ "boot_id" ∷ []) v && is_text role (get v "role")) _
        c in
    ((eq_iff role "writer").0 a, is_text_iff epoch _ g, is_text_iff boot_id _ d)

pub authority_lem :
    (role epoch boot_id : String) (f : Option AuthorityFile)
    → authority role epoch boot_id f ≡ true
    → (g : AuthorityFile) × (v : Value) × (f ≡ some g)
      × (g.contents ≡ some v)
      × (authorized role epoch boot_id v ≡ true)
unfolding authority file_authority
authority_lem role epoch boot_id none h = cc
authority_lem role epoch boot_id (some g) h = go g.contents refl
  where
    go :
        (c : Option Value)
        → g.contents ≡ c
        → (k : AuthorityFile) × (v : Value) × (some g ≡ some k)
          × (k.contents ≡ some v)
          × (authorized role epoch boot_id v ≡ true)
    go none e = ground (arith, e)
    go (some v) e = (g, v, refl, e, ground (arith, e))

same_content : {A : Type 0} {c : Option A} {v w : A} → c ≡ some v → c ≡ some w → v ≡ w
same_content p q = cc

-- One activation file gives authority to a writer, under one epoch and in one boot only.
pub authority_unique :
    (role epoch boot_id role' epoch' boot_id' : String) (f : Option AuthorityFile)
    → authority role epoch boot_id f ≡ true
    → authority role' epoch' boot_id' f ≡ true
    → (role ≡ "writer") × (role' ≡ "writer") × (epoch ≡ epoch') × (boot_id ≡ boot_id')
authority_unique role epoch boot_id role' epoch' boot_id' f h k =
    let (g, v, e, c, a) = authority_lem role epoch boot_id f h in
    let (g', v', e', c', a') = authority_lem role' epoch' boot_id' f k in
    let same : g ≡ g' = same_content e e' in
    let v_same : v ≡ v' = same_content c (ap (λ (x : AuthorityFile). x.contents) same ∙ c') in
    let (w, p, b) = authorized_lem role epoch boot_id v a in
    let (w', p', b') = authorized_lem role' epoch' boot_id' v' a' in
    let epochs : str epoch ≡ str epoch' = sym p ∙ ap (λ x. get x "epoch") v_same ∙ p' in
    let boots : str boot_id ≡ str boot_id' = sym b ∙ ap (λ x. get x "boot_id") v_same ∙ b' in
    (w, w', str-injective epochs, str-injective boots)
  where
    str-injective : {s t : String} → str s ≡ str t → s ≡ t
    str-injective h = cc

activation-authority :
    (epoch boot_id : String)
    → authority "writer" epoch boot_id (some (activation epoch boot_id)) ≡ true
unfolding authority file_authority authorized activation has_keys get is_text keys contains lookup
activation-authority epoch boot_id = rw (beq_refl epoch, beq_refl boot_id) refl

-- Activation either refuses and leaves the file as it is, or there was no file, root asked for a
-- writer, and the new file gives this writer authority under its epoch, in this boot.
pub activate-authority :
    (euid : ℕ) (role epoch boot_id : String) (f : Option AuthorityFile)
    → ((x : Exc) × (activate euid role epoch boot_id f ≡ (raise x, f)))
      ⊎ ((f ≡ none)
          × (euid ≡ 0)
          × (role ≡ "writer")
          × ((activate euid role epoch boot_id f).0 ≡ ok tt)
          × (authority role epoch boot_id (activate euid role epoch boot_id f).1 ≡ true))
unfolding activate
activate-authority euid role epoch boot_id f =
    elim (Bool-cases (not (euid == 0) || not (role == "writer"))) [
      | inl refused ↦
          inl (value_error "only root may activate the designated D1 writer", refuses refused)
      | inr allowed ↦ go f allowed
    ]
  where
    refuses :
        (not (euid == 0) || not (role == "writer")) ≡ true
        → activate euid role epoch boot_id f
          ≡ (raise (value_error "only root may activate the designated D1 writer"), f)
    refuses h = rw (activate, h) refl

    go :
        (f : Option AuthorityFile)
        → (not (euid == 0) || not (role == "writer")) ≡ false
        → ((x : Exc) × (activate euid role epoch boot_id f ≡ (raise x, f)))
          ⊎ ((f ≡ none)
              × (euid ≡ 0)
              × (role ≡ "writer")
              × ((activate euid role epoch boot_id f).0 ≡ ok tt)
              × (authority role epoch boot_id (activate euid role epoch boot_id f).1 ≡ true))
    go none h =
        let (a, b) = ||-eq-false (not (euid == 0)) (not (role == "writer")) h in
        let root : euid ≡ 0 = ground arith in
        let writer : role ≡ "writer" = (eq_iff role "writer").0 (not-eq-false _ b) in
        inr (
          refl,
          root,
          writer,
          rw (activate, h) refl,
          rw (activate, h, writer) (activation-authority epoch boot_id),
        )
    go (some g) h = inl (os_error "file exists", rw (activate, h) refl)
