-- ===== src/Pipeline/Room.antt =====
-- The buffer of the file name.
use ngx_htaccess.Common.{
  ℕ, ◌+◌, ◌≤◌, ◌≡◌, ◌≢◌, refl, inl, inr, Bool-cases, [], ◌++◌, ltb, if◌then◌else◌, Bytes, length,
  length-append, length-drop, drop, arith,
}
use ngx_htaccess.Pipeline.{file_below, file_room}
use ngx_htaccess.Walk.Paths.{slash_behind, length-slash_behind}

below : (uri : Bytes) → ℕ
below uri = length (if ltb 1 (length uri) then drop 1 uri else [])

length-below :
    (uri : Bytes) → (below uri ≤ length uri) × (length uri ≢ 0 → below uri + 1 ≤ length uri)
unfolding below
length-below uri = elim (Bool-cases (ltb 1 (length uri))) [
  | inl long ↦ rw (long, length-drop 1 uri) (omega arith, λ h. omega (arith, h))
  | inr short ↦ rw short (omega arith, λ h. ground (arith, h))
]

length-file_below :
    (root uri : Bytes)
    → length (file_below root uri) ≡ length root + (length (slash_behind root) + below uri)
unfolding below
length-file_below root uri =
    rw
      (
        length-append root (slash_behind root ++ (if ltb 1 (length uri) then drop 1 uri else [])),
        length-append (slash_behind root) (if ltb 1 (length uri) then drop 1 uri else []),
      )
      refl

-- The name of the file below the root fits into the bytes that htaccess_resolve_filename allocates
-- for it, whatever the root and the URI are; for a URI that is not empty a byte is left over.
pub file_below-le-file_room :
    (root uri : Bytes)
    → (length (file_below root uri) ≤ file_room root uri)
      × (length uri ≢ 0 → length (file_below root uri) + 1 ≤ file_room root uri)
file_below-le-file_room root uri =
    let (fits, spare) = length-below uri in
    (
      omega (arith, length-file_below root uri, length-slash_behind root, fits),
      λ h. omega (arith, length-file_below root uri, length-slash_behind root, spare h),
    )
