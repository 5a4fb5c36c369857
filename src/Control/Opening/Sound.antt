-- ===== src/Control/Opening/Sound.antt =====
-- What an entered journal stands on.
use highly_available_trailba.Prelude.{
  ◌≤◌, ◌≡◌, refl, ap, sym, ◌∙◌, subst, Bool, true, false, String, List, [], ◌∷◌, map, Option, none,
  some, some-injective, find?, ◌==◌, string_eq, Result, ok, raise, Exc, value_error, sqlite_error,
  arith, if◌then◌else◌,
}
use highly_available_trailba.Exec.{Exec, ◌>>=◌, pure, lift, after_part, after_lift}
use highly_available_trailba.Control.Files.{FileId, private_file}
use highly_available_trailba.Control.Rows.{
  Contract, legacy, acceptance, OperationRow, Db, empty_db, select_operation,
}
use highly_available_trailba.Control.State.{Journal}
use highly_available_trailba.Control.Journal.Sound.{marks_of, RowSound, unfinished, IsSound, Holds}
use highly_available_trailba.Control.Journal.Reach.{empty-IsSound}
use highly_available_trailba.Control.Schema.{Catalog, journal_schema}
use highly_available_trailba.Control.Legacy.{validate_legacy_rows}
use highly_available_trailba.Control.Legacy.Sound.{validate_legacy_rows-IsSound}
use highly_available_trailba.Control.Opening.{
  Entry, Store, Opening, owned_root, check_candidates, usable, let_go, schema_of,
  require_acceptance, with_contract, commit_store, migrate, recognise, create, settle_change,
  opening, enter,
}

-- where the rows come from: a new journal, one of this generation, or a validated one of the first
pub data From (e : Entry) : Option Store → Option Store → Type 0 where
  new :
      (before : Option Store) (catalog : Catalog)
      → e.exists ≡ false
      → From e before (some (record { catalog = catalog; rows = empty_db }))
  same : (d : Store) → journal_schema d.catalog ≡ ok acceptance → From e (some d) (some d)
  migrated :
      (d : Store) (catalog : Catalog)
      → validate_legacy_rows d.rows ≡ ok tt
      → From e (some d) (some (record { catalog = catalog; rows = with_contract d.rows }))

state_of :
    {A : Type 0} {r r' : Result A} {s t : Opening}
    → ◌≡◌ {A = Result A × Opening} (r, s) (r', t)
    → s ≡ t
state_of {A} h = ap (λ (p : Result A × Opening). p.1) h

commit_store-ok :
    (d : Store) (s : Opening) {u : Unit {0}} {t : Opening}
    → commit_store d s ≡ (ok u, t)
    → (t.journal ≡ s.journal) × (t.store ≡ some d)
unfolding commit_store
commit_store-ok d s {u} {t} h = go s.commits refl h
  where
    left :
        {v : Opening}
        → ◌≡◌ {A = Result (Unit {0}) × Opening} (ok tt, v) (ok u, t)
        → v.journal ≡ s.journal
        → v.store ≡ some d
        → (t.journal ≡ s.journal) × (t.store ≡ some d)
    left e a b = (
      ap (λ (x : Opening). x.journal) (sym (state_of e)) ∙ a,
      ap (λ (x : Opening). x.store) (sym (state_of e)) ∙ b,
    )

    go :
        (c : List Bool)
        → s.commits ≡ c
        → elim c as (λ _. Result (Unit {0}) × Opening) [
          | [] ↦ (ok tt, record s { store = some d })
          | durable ∷ rest ↦
              if durable
              then (ok tt, record s { store = some d; commits = rest })
              else (raise (sqlite_error "commit failed"), record s { commits = rest })
        ]
          ≡ (ok u, t)
        → (t.journal ≡ s.journal) × (t.store ≡ some d)
    go [] e h = left h refl refl
    go (true ∷ rest) e h = left h refl refl
    go (false ∷ rest) e h = let bad = ap (λ (p : Result (Unit {0}) × Opening). p.0) h in cc

migrate-ok :
    (e : Entry) (d : Store) (s : Opening) {u : Unit {0}} {t : Opening}
    → migrate e d s ≡ (ok u, t)
    → (t.journal ≡ s.journal)
      × (catalog : Catalog) × (t.store
          ≡ some (record { catalog = catalog; rows = with_contract d.rows }))
unfolding migrate
migrate-ok e d s h = after_lift e.begun _ s h (λ _ _ h1.
    after_lift (e.altered d.catalog) _ s h1 (λ catalog _ h2.
      after_lift
        (require_acceptance (value_error "journal migration differs") (journal_schema catalog)) _ s
        h2
        (λ _ _ h3.
          let (a, b) =
            commit_store-ok (record { catalog = catalog; rows = with_contract d.rows }) s h3 in
          (a, catalog, b))))

recognise-From :
    (e : Entry) (store : Option Store) (s : Opening) {b : Bool} {t : Opening}
    → s.store ≡ store
    → recognise e store s ≡ (ok b, t)
    → (t.journal ≡ s.journal) × From e store t.store
unfolding recognise
recognise-From e none s is h = let bad = ap (λ (p : Result Bool × Opening). p.0) h in cc
recognise-From e (some d) s {b} {t} is h = after_lift (journal_schema d.catalog) _ s h go
  where
    go :
        (kind : Contract)
        → journal_schema d.catalog ≡ ok kind
        → (elim kind as (λ _. Exec Opening Bool) [
          | acceptance ↦ pure false
          | legacy ↦ (lift (validate_legacy_rows d.rows) >>= λ _. migrate e d >>= λ _. pure true)
        ])
            s
          ≡ (ok b, t)
        → (t.journal ≡ s.journal) × From e (some d) t.store
    go acceptance k h = (
      ap (λ (x : Opening). x.journal) (sym (state_of h)),
      subst (λ o. From e (some d) o) (sym is ∙ ap (λ (x : Opening). x.store) (state_of h))
          (same d k),
    )
    go legacy k h = after_lift (validate_legacy_rows d.rows) _ s h (λ _ valid h1.
        after_part (migrate e d) _ s h1 (λ _ u m h2.
          let (a, catalog, c) = migrate-ok e d s m in
          (
            ap (λ (x : Opening). x.journal) (sym (state_of h2)) ∙ a,
            subst (λ o. From e (some d) o) (sym c ∙ ap (λ (x : Opening). x.store) (state_of h2))
                (migrated d catalog (valid ∙ refl)),
          )))

create-From :
    (e : Entry) (s : Opening) {b : Bool} {t : Opening}
    → e.exists ≡ false
    → create e s ≡ (ok b, t)
    → (t.journal ≡ s.journal) × From e s.store t.store
unfolding create
create-From e s {b} {t} absent_before h =
    let left = state_of h in
    (
      ap (λ (x : Opening). x.journal) (sym left),
      subst (λ o. From e s.store o) (ap (λ (x : Opening). x.store) left)
          (new s.store e.script.1 absent_before),
    )

settle_change-same :
    (e : Entry) (b : Bool) (s : Opening) {u : Unit {0}} {t : Opening}
    → settle_change e b s ≡ (ok u, t)
    → s ≡ t
unfolding settle_change
settle_change-same e false s h = state_of h
settle_change-same e true s h =
    after_lift e.first_synced _ s h (λ _ _ h1. after_lift e.reopened _ s h1 (λ _ _ h2. state_of h2))

require_acceptance-ok :
    (x : Exc) (r : Result Contract) {u : Unit {0}}
    → require_acceptance x r ≡ ok u
    → r ≡ ok acceptance
unfolding require_acceptance
require_acceptance-ok x (raise y) h = cc
require_acceptance-ok x (ok legacy) h = cc
require_acceptance-ok x (ok acceptance) h = refl

abbrev known : Entry → Option Store → Bool → Exec Opening Bool
known e store b = elim b [ true ↦ recognise e store | false ↦ create e ]

known-From :
    (e : Entry) (s : Opening) (b : Bool) {changed : Bool} {t : Opening}
    → e.exists ≡ b
    → known e s.store b s ≡ (ok changed, t)
    → (t.journal ≡ s.journal) × From e s.store t.store
known-From e s true exists h = recognise-From e s.store s refl h
known-From e s false exists h = create-From e s exists h

-- What an object that was entered holds, and over which tables: the lock file was opened, is private, and took the
-- exclusive lock of `flock`; each database file that is there is private, and none is a WAL.
pub record Entered (e : Entry) (s t : Opening) : Type 0 where
  pub held : FileId
  pub lock_opened : e.lock_opened ≡ ok held
  pub lock_is_private : (file : FileId) × (private_file e.euid e.lock_stat ≡ ok file)
  pub locked : e.locked ≡ ok tt
  pub candidates : check_candidates e.euid e.candidates ≡ ok tt
  pub is_usable : usable e ≡ ok tt
  pub has_lock : t.journal.lock ≡ some held
  pub has_db : t.journal.db_open ≡ true
  pub has_root : owned_root e.euid e.root e.has_linked_parent ≡ ok t.journal.directory_identity
  pub has_file : private_file e.euid e.journal_stat ≡ ok t.journal.database_identity
  pub as_before : t.journal.operation ≡ s.journal.operation
  pub current : schema_of t.store ≡ ok acceptance
  pub from : From e s.store t.store

opening-Entered :
    (e : Entry) (s : Opening) {u : Unit {0}} {t : Opening} → opening e s ≡ (ok u, t) → Entered e s t
unfolding opening
opening-Entered e s {u} {t} h =
    after_lift (owned_root e.euid e.root e.has_linked_parent) _ _ h (λ root a h1.
      after_lift e.lock_opened _ _ h1 (λ lock b h2.
        after_lift (private_file e.euid e.lock_stat) _ _ h2 (λ file p h3.
          after_lift e.locked _ _ h3 (λ _ l h4.
            after_lift (check_candidates e.euid e.candidates) _ _ h4 (λ _ c0 h5.
              after_lift (usable e) _ _ h5 (λ _ us h6. after_lift e.connected _ _ h6 (λ _ _ h7.
                after_lift e.set_up _ _ h7 (λ _ _ h8.
                  let opened = record s {
                    journal = record s.journal {
                      directory_identity = root;
                      lock = some lock;
                      db_open = true;
                    };
                  } in
                  after_part (known e s.store e.exists) _ opened h8 (λ changed v c h9.
                    let (kept, from) = known-From e opened e.exists refl c in
                    after_lift
                      (require_acceptance (value_error "journal schema differs")
                        (schema_of v.store))
                      _ v h9
                      (λ _ d h10. after_part (settle_change e changed) _ v h10 (λ _ v' f h11.
                        after_lift (private_file e.euid e.journal_stat) _ v' h11 (λ own g h12.
                          let left = state_of h12 in
                          let journal =
                            ap (λ (x : Opening). x.journal) (sym (settle_change-same e changed v f))
                            ∙ kept in
                          subst (λ x. Entered e s x) left
                            (record {
                              held = lock;
                              lock_opened = b;
                              lock_is_private = (file, p);
                              locked = l ∙ refl;
                              candidates = c0 ∙ refl;
                              is_usable = us ∙ refl;
                              has_lock = ap (λ (x : Journal). x.lock) journal;
                              has_db = ap (λ (x : Journal). x.db_open) journal;
                              has_root =
                                  a
                                  ∙ ap ok
                                      (sym (ap (λ (x : Journal). x.directory_identity) journal));
                              has_file = g;
                              as_before = ap (λ (x : Journal). x.operation) journal;
                              current =
                                  subst (λ (x : Opening). schema_of x.store ≡ ok acceptance)
                                    (settle_change-same e changed v f)
                                    (require_acceptance-ok _ _ d);
                              from =
                                  subst (λ (x : Opening). From e s.store x.store)
                                    (settle_change-same e changed v f) from;
                            })))))))))))))

-- The column that is added changes nothing that soundness asks of.
abbrev recontract : OperationRow → OperationRow
recontract r = record r { restore_contract = legacy }

select-with_contract :
    (k : String) (db : Db)
    → select_operation k (with_contract db)
      ≡ elim (select_operation k db) as (λ _. Option OperationRow) [
        | none ↦ none
        | some r ↦ some (recontract r)
      ]
unfolding select_operation with_contract
select-with_contract k db = go db.operations
  where
    go :
        (xs : List OperationRow)
        → find? (λ (o : OperationRow). o.id == k) (map recontract xs)
          ≡ elim (find? (λ (o : OperationRow). o.id == k) xs) as (λ _. Option OperationRow) [
            | none ↦ none
            | some r ↦ some (recontract r)
          ]
    go [] = refl
    go (x ∷ xs) = ground (arith, go xs)

unfinished-recontract : (xs : List OperationRow) → unfinished (map recontract xs) ≡ unfinished xs
unfinished-recontract [] = refl
unfinished-recontract (x ∷ xs) = ground (arith, unfinished-recontract xs)

with_contract-IsSound : (db : Db) → IsSound db → IsSound (with_contract db)
unfolding with_contract
with_contract-IsSound db h = record {
  rows = λ k q sel. row_of k q (select_operation k db) refl (sym (select-with_contract k db) ∙ sel);
  homed = λ k sel. none_of k (select_operation k db) refl (sym (select-with_contract k db) ∙ sel);
  single = subst (λ n. n ≤ 1) (sym (unfinished-recontract db.operations)) h.single;
  clean = h.clean;
}
  where
    kept_row : (r : OperationRow) → RowSound db r → RowSound (with_contract db) (recontract r)
    kept_row r x = record {
      plan = x.plan;
      is_plan = x.is_plan;
      rest = x.rest;
      prefix = x.prefix;
      full = x.full;
    }

    row_of :
        (k : String) (q : OperationRow) (o : Option OperationRow)
        → select_operation k db ≡ o
        → elim (select_operation k db) as (λ _. Option OperationRow) [
          | none ↦ none
          | some r ↦ some (recontract r)
        ]
          ≡ some q
        → RowSound (with_contract db) q
    row_of k q none e sel =
        let bad =
          sym (
            ap
              (λ o. elim o as (λ _. Option OperationRow) [
                | none ↦ none
                | some r ↦ some (recontract r)
              ])
              e)
          ∙ sel in
        cc
    row_of k q (some r) e sel =
        let is =
          sym (
            ap
              (λ o. elim o as (λ _. Option OperationRow) [
                | none ↦ none
                | some r ↦ some (recontract r)
              ])
              e)
          ∙ sel in
        subst (RowSound (with_contract db)) (some-injective (recontract r) q is)
          (kept_row r (h.rows k r e))

    none_of :
        (k : String) (o : Option OperationRow)
        → select_operation k db ≡ o
        → elim (select_operation k db) as (λ _. Option OperationRow) [
          | none ↦ none
          | some r ↦ some (recontract r)
        ]
          ≡ none
        → marks_of k (with_contract db) ≡ []
    none_of k none e sel = h.homed k e
    none_of k (some r) e sel =
        let bad =
          sym (
            ap
              (λ o. elim o as (λ _. Option OperationRow) [
                | none ↦ none
                | some r ↦ some (recontract r)
              ])
              e)
          ∙ sel in
        cc

-- Where the rows come from, they are sound.
From-IsSound :
    (e : Entry) {before after : Option Store}
    → ((d : Store) → before ≡ some d → unfinished d.rows.operations ≤ 1)
    → ((d : Store) → before ≡ some d → journal_schema d.catalog ≡ ok acceptance → IsSound d.rows)
    → From e before after
    → (d : Store) × (after ≡ some d) × IsSound d.rows
From-IsSound e single left (new before catalog x) =
    (record { catalog = catalog; rows = empty_db }, refl, empty-IsSound)
From-IsSound e single left (same d k) = (d, refl, left d refl k)
From-IsSound e single left (migrated d catalog valid) = (
  record { catalog = catalog; rows = with_contract d.rows },
  refl,
  with_contract-IsSound d.rows (validate_legacy_rows-IsSound d.rows (single d refl) valid),
)

-- How entering a journal ends.
pub data Ends (e : Entry) (s : Opening) : Result (Unit {0}) × Opening → Type 0 where
  failed_to :
      (x : Exc) (t : Opening)
      → t.journal.lock ≡ none
      → t.journal.db_open ≡ false
      → Ends e s (raise x, t)
  opened :
      (t : Opening) (d : Store)
      → Entered e s t
      → t.store ≡ some d
      → journal_schema d.catalog ≡ ok acceptance
      → Holds t.journal d.rows
      → Ends e s (ok tt, t)

-- Entering a journal either raises, and has then let go of the lock and of the database, or leaves
-- an object that keeps the lock file, opened, private and locked by `flock`, a private root that it
-- owns and a private file, over tables of the present generation, and these keep the journal's invariant: they are new and empty, or those that
-- were left, or those of the first generation, validated and with the new column. The tables that
-- were left are taken to be sound if they are of the present generation, and to have at most one
-- unfinished operation, as the index one_unfinished has it; the object is a new one.
pub enter-Ends :
    (e : Entry) (s : Opening)
    → s.journal.operation ≡ none
    → ((d : Store) → s.store ≡ some d → unfinished d.rows.operations ≤ 1)
    → ((d : Store) → s.store ≡ some d → journal_schema d.catalog ≡ ok acceptance → IsSound d.rows)
    → Ends e s (enter e s)
unfolding enter let_go
enter-Ends e s idle single left = go (opening e s) refl
  where
    go :
        (p : Result (Unit {0}) × Opening)
        → opening e s ≡ p
        → Ends e s (elim p.0 as (λ _. Result (Unit {0}) × Opening) [
          | ok u ↦ (ok tt, p.1)
          | raise x ↦ (raise x, let_go p.1)
        ])
    go (raise x, t) h = failed_to x (let_go t) refl refl
    go (ok u, t) h =
        let i = opening-Entered e s h in
        let (d, is, sound) = From-IsSound e single left i.from in
        opened t d i is (unfold schema_of in (ap schema_of (sym is) ∙ i.current)) (record {
          sound = sound;
          linked = λ o b. let bad = sym i.as_before ∙ b in let n = sym idle ∙ bad in cc;
        })
