-- ===== src/Service/Probes.antt =====
-- omkit/health.py: the status of the probes.
use omkit_python.Prelude.{ℕ, ◌≡◌, refl, Bool, ◌||◌, Option, none, some, if◌then◌else◌, ◌==◌, arith}
use omkit_python.Prelude.Text.{Text, codes, text_eq}
use omkit_python.Service.{
  Answer, Check, unset, checked, check_raised, all_ok, liveness, readiness, serve,
}

abbrev pub status_of : Option Answer → Option ℕ
status_of none = none
status_of (some a) = some a.status

abbrev pub expected : Check → Option ℕ
expected unset = some 200
expected (checked cs) = if all_ok cs then some 200 else some 503
expected check_raised = none

readiness-status :
    (service version : Text) (check : Check)
    → status_of (readiness service version check) ≡ expected check
unfolding readiness
readiness-status service version unset = refl
readiness-status service version (checked cs) = ground arith
readiness-status service version check_raised = refl

abbrev pub is_liveness : Text → Bool
is_liveness path = path == codes "/health" || path == codes "/healthz"

abbrev pub is_readiness : Text → Bool
is_readiness path = path == codes "/ready" || path == codes "/readyz"

abbrev pub routed : Option (Option Answer) → Option ℕ
routed none = some 404
routed (some a) = status_of a

-- A liveness path answers with 200 whatever the checks say, or whether they raise. A readiness path
-- answers with 200 if there are no checks or all of them are "ok", with 503 if one is not, and passes
-- on what the check raises. Another path has no route.
pub serve_status :
    (service version path : Text) (check : Check)
    → routed (serve service version check path) ≡ (
        if is_liveness path
        then some 200
        else if is_readiness path
        then expected check
        else some 404)
unfolding serve liveness
serve_status service version path check = ground (arith, readiness-status service version check)
