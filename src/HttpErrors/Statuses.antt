-- ===== src/HttpErrors/Statuses.antt =====
-- internal/httpapi/errors.go, with internal/gateway/service.go and internal/provider/http.go: the status
-- that a client sees for an answer of a provider.
use route_forge.Base.{ℕ, ◌≡◌, refl, true, false, not, Bool, List, leb, ◌==◌, if◌then◌else◌}
use route_forge.Outcome.{
  http_status_error, eligible_for_fallback, ErrorKind, error_timeout, error_rate_limited,
  error_unavailable, error_invalid_request, provider_error, plain,
}
use route_forge.HttpErrors.{root, write_provider_error, write_completion_error}

-- The kind of an upstream status by three tests of it, and what becomes of it.
by_tests : Bool → Bool → Bool → ErrorKind
by_tests a b c =
    if a
    then error_timeout
    else if b
    then error_rate_limited
    else if c
    then error_unavailable
    else error_invalid_request

by_tests_lem :
    (name : List ℕ) (a b c : Bool)
    → let e = provider_error (by_tests a b c) name plain in
      let answered = (write_completion_error e).status in
      (answered ≡ (if a then 504 else if b then 429 else if c then 503 else 400))
      × (eligible_for_fallback e ≡ not (answered == 400))
unfolding by_tests write_completion_error root write_provider_error eligible_for_fallback
by_tests_lem name true b c = (refl, refl)
by_tests_lem name false true c = (refl, refl)
by_tests_lem name false false true = (refl, refl)
by_tests_lem name false false false = (refl, refl)

-- The statuses from end to end. A status of a provider that the gateway gave up on is answered with 504
-- for 408, with 429 for 429, with 503 for 500 and above, and with 400 for every other; and it is one the
-- gateway falls back on exactly when it is not answered with 400.
pub write_completion_error_lem :
    (name : List ℕ) (status : ℕ)
    → let answered = (write_completion_error (http_status_error name status)).status in
      (answered ≡ (
        if status == 408
        then 504
        else if status == 429
        then 429
        else if leb 500 status
        then 503
        else 400))
      × (eligible_for_fallback (http_status_error name status) ≡ not (answered == 400))
unfolding http_status_error by_tests
write_completion_error_lem name status =
    by_tests_lem name (status == 408) (status == 429) (leb 500 status)
