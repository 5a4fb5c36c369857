-- ===== src/S3/Reconcile.antt =====
-- experiments/m1/s3.py: `reconcile_put_detailed` of class S3Client, which finds out what became of a
-- PUT whose answer was lost. `read` is `head` and `get` of the object, over an outside world.
pub mod Sound
use highly_available_trailba.Prelude.{
  ℕ, zero, suc, Bool, true, false, ◌&&◌, ◌||◌, not, String, List, [], ◌∷◌, ◌++◌, Option, none, some,
  ◌==◌, nat_eq, string_eq, list_eq, Result, ok, raise, if◌then◌else◌, Exc,
}
use highly_available_trailba.Exec.{Exec, pure, ◌>>=◌}
use highly_available_trailba.S3.Text.{quote_etag, header_value}
use highly_available_trailba.S3.Put.{Response}

pub data Reconciliation : Type 0 where
  committed discarded unknown : Reconciliation

pub data Method : Type 0 where
  head get : Method

unfoldable pub is_get : Method → Bool
is_get get = true
is_get head = false

pub record ReconciliationProbe : Type 0 where
  pub method : Method
  pub status : Option ℕ
  pub etag : String
  pub payload_sha256 : String
  pub request_id : String

pub record ReconciliationResult : Type 0 where
  pub outcome : Reconciliation
  pub probes : List ReconciliationProbe

-- `except (OSError, URLError)`: both are OSErrors
unfoldable pub is_os_error : Exc → Bool
is_os_error (Exc.os_error m) = true
is_os_error e = false

-- `a or b` of texts
unfoldable pub or_else : String → String → String
or_else a b = if a == "" then b else a

-- What a probe of a round found.
pub record Found : Type 0 where
  pub absent : Bool
  pub is_committed : Bool
  pub probes : List ReconciliationProbe

abbrev pub found : Bool → Bool → List ReconciliationProbe → Found
found a c ps = record { absent = a; is_committed = c; probes = ps }

module _ (sha256 : List ℕ → String) where
  -- `ReconciliationProbe.from_response`
  unfoldable pub from_response : Method → Response → ReconciliationProbe
  unfolding header_value or_else
  from_response method (status, headers, body) = record {
    method = method;
    status = some status;
    etag = header_value headers "etag";
    payload_sha256 = sha256 body;
    request_id =
        or_else (header_value headers "x-amz-request-id") (header_value headers "x-request-id");
  }

  unfoldable pub failed_probe : Method → ReconciliationProbe
  failed_probe method = record {
    method = method;
    status = none;
    etag = "";
    payload_sha256 = sha256 [];
    request_id = "";
  }

  module _ (body : List ℕ) (etag : Option String) where
    unfoldable pub etag_matches : String → Bool
    etag_matches seen = elim etag [ none ↦ true | some e ↦ seen == quote_etag e ]

    -- the condition under which `reconcile_put_detailed` returns COMMITTED
    unfoldable pub is_committed : Method → Response → Bool
    unfolding is_get etag_matches header_value
    is_committed method (status, headers, got) =
        is_get method
        && status == 200
        && got == body
        && not (header_value headers "etag" == "")
        && etag_matches (header_value headers "etag")

    module _ {W : Type 0} (read : Method → W → Result Response × W) where
      -- one turn of the inner loop
      unfoldable pub judge : Method → List ReconciliationProbe → Result Response → Result Found
      unfolding from_response failed_probe is_committed is_os_error
      judge method probes (ok response) = ok (
          found (response.0 == 404) (is_committed method response)
            (probes ++ from_response method response ∷ []))
      judge method probes (raise e) =
          if is_os_error e
          then ok (found false false (probes ++ failed_probe method ∷ []))
          else raise e

      unfoldable pub probe : Method → List ReconciliationProbe → Exec W Found
      unfolding judge
      probe method probes w = let (r, w') = read method w in (judge method probes r, w')

      -- what a round decides, or that another one is needed
      unfoldable pub verdict : Found → Found → Option Reconciliation
      verdict h g =
          if g.is_committed
          then some committed
          else if h.absent && g.absent
          then some discarded
          else none

      unfoldable pub rounds : ℕ → List ReconciliationProbe → Exec W ReconciliationResult
      rounds zero probes = pure (record { outcome = unknown; probes = probes })
      rounds (suc n) probes = do
        h ← probe head probes
        g ← probe get h.probes
        elim (verdict h g) [
          | none ↦ rounds n g.probes
          | some o ↦ pure (record { outcome = o; probes = g.probes })
        ]

      -- three authoritative rounds
      unfoldable pub reconcile_put_detailed : Exec W ReconciliationResult
      unfolding rounds
      reconcile_put_detailed = rounds 3 []

      unfoldable pub reconcile_put : Exec W Reconciliation
      unfolding reconcile_put_detailed
      reconcile_put = do r ← reconcile_put_detailed; pure r.outcome
