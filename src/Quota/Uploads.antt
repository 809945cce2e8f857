-- ===== src/Quota/Uploads.antt =====
-- omkit/quota.py: uploads that are checked keep a tenant within its limits.
use omkit_python.Prelude.{◌≡◌, ◌↔◌, true, false, List, [], ◌∷◌, if◌then◌else◌, arith}
use omkit_python.Prelude.Int.{ℤ, pos, ◌+ℤ◌, ◌≤ℤ◌, +ℤ_parts}
use omkit_python.Quota.{Resource, Limits, Usage, deny, check_upload}

abbrev pub Within : Limits → Usage → Type 0
Within lim u = (u.docs ≤ℤ lim.docs) × (u.storage_bytes ≤ℤ lim.storage_bytes)

-- An upload that was allowed is stored.
unfoldable pub upload : Limits → Usage → ℤ → Usage
upload lim u size =
    if (check_upload lim u size).allowed
    then record u { docs = u.docs +ℤ pos 1; storage_bytes = u.storage_bytes +ℤ size }
    else u

unfoldable pub upload_each : Limits → Usage → List ℤ → Usage
unfolding upload
upload_each lim u [] = u
upload_each lim u (size ∷ sizes) = upload_each lim (upload lim u size) sizes

upload-Within :
    (lim : Limits) (u : Usage) (size : ℤ) → Within lim u → Within lim (upload lim u size)
unfolding upload check_upload
upload-Within lim u size v = ground arith

-- A tenant within its limits stays within them, whatever it uploads, one checked upload after the
-- other.
pub upload_each-Within :
    (lim : Limits) (u : Usage) (sizes : List ℤ)
    → Within lim u
    → Within lim (upload_each lim u sizes)
unfolding upload_each
upload_each-Within lim u [] v = v
upload_each-Within lim u (size ∷ sizes) v =
    upload_each-Within lim (upload lim u size) sizes (upload-Within lim u size v)

-- An upload is allowed exactly if one more document and its bytes fit; a decision against it names
-- the documents if they are the reason, and the bytes otherwise, with the limit and what is used.
pub check_upload_cases :
    (lim : Limits) (u : Usage) (size : ℤ)
    → let fits = (u.docs +ℤ pos 1 ≤ℤ lim.docs) × (u.storage_bytes +ℤ size ≤ℤ lim.storage_bytes) in
      (((check_upload lim u size).allowed ≡ true) ↔ fits)
      × ((u.docs +ℤ pos 1 ≤ℤ lim.docs)
          → (check_upload lim u size).allowed ≡ false
          → check_upload lim u size
            ≡ deny Resource.storage_bytes lim.storage_bytes u.storage_bytes (pos 0))
      × ((lim.docs ≤ℤ u.docs)
          → check_upload lim u size ≡ deny Resource.docs lim.docs u.docs (pos 0))
unfolding check_upload
check_upload_cases lim u size = ground (arith, +ℤ_parts u.docs (pos 1))
