-- ===== src/Engine/Auth/Challenge.antt =====
-- The header of an unauthorized request.
use ngx_htaccess.Common.{
  ℕ, zero, suc, ◌+◌, ◌≡◌, refl, ap, false, [], ◌∷◌, ◌++◌, some, ◌==◌, Bytes, codes, length,
  length-append, length-drop, take, drop, arith,
}
use ngx_htaccess.Directives.{MergedCtx}
use ngx_htaccess.Engine.Auth.{realm_text, challenge}
use ngx_htaccess.Engine.Conds.{Context}
use ngx_htaccess.Engine.State.{Response}

take-append-drop : (n : ℕ) (p : Bytes) → take n p ++ drop n p ≡ p
take-append-drop zero p = refl
take-append-drop (suc n) [] = refl
take-append-drop (suc n) (c ∷ p) = ap (◌∷◌ c) (take-append-drop n p)

-- For a realm with a name, the header WWW-Authenticate lacks the last seven bytes of its text, the
-- closing quote and six before it.
pub challenge_cut :
    (cx : Context) (m : MergedCtx) (r : Response) (c : ℕ) (name : Bytes)
    → m.auth_name ≡ c ∷ name
    → (value cut : Bytes) × (challenge cx m r ≡ record r {
      headers = r.headers ++ ((codes "WWW-Authenticate", value) ∷ []);
      www_authenticate = some value;
    })
      × (value ++ cut ≡ realm_text m.auth_name)
      × (length cut ≡ 7)
unfolding challenge
challenge_cut cx m r c name q =
    let text = realm_text (c ∷ name) in
    let n = length (c ∷ name) + 7 in
    let some_name : (suc (length name) == 0) ≡ false = ground arith in
    (
      take n text,
      drop n text,
      rw (q, cx.ngx.snprintf_lem n text, some_name) refl,
      rw q (take-append-drop n text),
      omega (
        arith,
        length-drop n text,
        length-append (codes "Basic realm=\"") (c ∷ (name ++ codes "\"")),
        length-append name (codes "\""),
      ),
    )
