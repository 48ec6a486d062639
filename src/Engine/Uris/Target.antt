-- ===== src/Engine/Uris/Target.antt =====
-- The URI that a rule leaves, and the one that it sees.
use ngx_htaccess.Common.{
  ℕ, suc, ◌+◌, ◌≡◌, ◌≢◌, ◌<◌, refl, ap, inl, inr, ◌⊎◌, Bool, false, ◌||◌, [], ◌∷◌, ◌++◌, Option,
  none, some, ◌==◌, leb, lt→ltb, Bytes, Bool-cases, length, length-append, drop-length-append, All,
  arith,
}
use ngx_htaccess.Engine.Uris.{relative_uri, target_path, rooted, apply_target_uri}
use ngx_htaccess.Engine.State.{RequestState}
use ngx_htaccess.Ngx.{Ngx, index_of}
use mathlib.Core.Option

-- A path as nginx wants it: no question mark, and a slash at the beginning of one that is not empty.
pub record IsPath (uri : Bytes) : Type 0 where
  pub no_mark : All (λ c. c ≢ b'?') uri
  pub starts : (uri ≡ []) ⊎ ((p : Bytes) × (uri ≡ b'/' ∷ p))

-- A target is its path, or its path, a question mark and its arguments.
path_of_index : (target : Bytes) → All (λ c. c ≢ b'?') (target_path target (index_of target b'?'))
path_of_index [] = tt
path_of_index (c ∷ p) = elim (Bool-cases (c == b'?')) [
  | inl mark ↦ rw mark tt
  | inr other ↦ rw other (behind (λ e. absurd (ground arith)) (index_of p b'?') (path_of_index p))
]
  where
    behind :
        c ≢ b'?'
        → (i : Option ℕ) → All (λ d. d ≢ b'?') (target_path p i)
        → All (λ d. d ≢ b'?') (target_path (c ∷ p) (Option.map suc i))
    behind ne none h = (ne, h)
    behind ne (some i) h = (ne, h)

rooted-IsPath : (p : Bytes) → All (λ c. c ≢ b'?') p → IsPath (rooted p)
rooted-IsPath [] h = record { no_mark = tt; starts = inl refl }
rooted-IsPath (c ∷ p) h = elim (Bool-cases (c == b'/')) [
  | inl slash ↦ rw slash (record { no_mark = h; starts = inr (p, ap (λ d. d ∷ p) (ground arith)) })
  | inr other ↦
      rw other (record { no_mark = ((λ e. omega (arith, e)), h); starts = inr (c ∷ p, refl) })
]

-- What htaccess_apply_target_uri leaves is a path, and the request and the state of the rules agree.
pub apply_target_uri-IsPath :
    (ngx : Ngx) (s : RequestState) (target : Bytes) (qsa : Bool)
    → let t = apply_target_uri ngx s target qsa in
      IsPath t.0.uri × (t.1.uri ≡ t.0.uri) × (t.1.query_string ≡ t.0.args)
unfolding apply_target_uri
apply_target_uri-IsPath ngx s target qsa = (
  rooted-IsPath (target_path target (ngx.strlchr target b'?'))
      (rw (ngx.strlchr_lem target b'?') (path_of_index target)),
  refl,
  refl,
)

-- A rule of a directory sees what the URI has behind the directory's prefix and the slash: for the
-- prefix of a directory that is not the root, or behind the root where anything follows.
pub relative_uri-append :
    (prefix rest : Bytes)
    → 0 < length prefix + length rest
    → relative_uri (prefix ++ (b'/' ∷ rest)) prefix ≡ rest
unfolding relative_uri
relative_uri-append [] rest h = rw (lt→ltb 1 (suc (length rest)) (omega arith)) refl
relative_uri-append (c ∷ prefix) rest h = rw (longer, drop-length-append prefix (b'/' ∷ rest)) refl
  where
    longer :
        (length (c ∷ prefix) == 0
          || leb (length ((c ∷ prefix) ++ (b'/' ∷ rest))) (length (c ∷ prefix)))
        ≡ false
    longer = ground (arith, length-append prefix (b'/' ∷ rest))
