-- ===== src/Engine/Expand.antt =====
-- src/htaccess_vars.c: the expansion of a template.
pub mod Pieces
pub mod Total
use ngx_htaccess.Common.{
  ℕ, zero, suc, ◌+◌, ◌-◌, ◌*◌, Bool, ◌&&◌, List, [], ◌∷◌, ◌++◌, Option, none, some, ◌==◌, leb, ltb,
  if◌then◌else◌, Bytes, codes, length, take, drop, get_elem?, Outcome, ok, error, fault,
  out_of_fuel, ◌>>=◌,
}
use ngx_htaccess.Engine.State.{RequestState, Request, Match, env_get}
use ngx_htaccess.Ngx.{Ngx}

-- `len`, the bytes allocated for the result.
abbrev pub expand_room : Bytes → ℕ
expand_room tpl = length tpl * 4 + 256

-- `htaccess_expand_copy`, with what is written so far.
abbrev pub expand_copy : ℕ → Bytes → Bytes → Outcome Bytes
expand_copy room out src = if ltb room (length out + length src) then error else ok (out ++ src)

-- The text between the offsets of a pair of `captures`, or none where the group took no part in the
-- match. A pair that was never written is a fault.
abbrev pub between : Bytes → Option (Option (ℕ × ℕ)) → Outcome (Option Bytes)
between text none = fault
between text (some none) = ok none
between text (some (some (first, last))) = ok (some (take (last - first) (drop first text)))

unfoldable pub group : Option Match → ℕ → Outcome (Option Bytes)
group none n = ok none
group (some m) n = between m.text (get_elem? m.captures n)

-- Nothing is copied where there is no text.
abbrev pub copy_group : ℕ → Bytes → Option Bytes → Outcome Bytes
copy_group room out none = ok out
copy_group room out (some s) = expand_copy room out s

-- `value.len && htaccess_expand_copy(...)`
abbrev pub copy_value : ℕ → Bytes → Bytes → Outcome Bytes
copy_value room out [] = ok out
copy_value room out (c ∷ s) = expand_copy room out (c ∷ s)

-- The value of a variable, and the empty text where it has none.
abbrev pub or_empty : Option Bytes → Bytes
or_empty none = []
or_empty (some v) = v

module _ (ngx : Ngx) where
  open ngx use {strncasecmp_eq, strlchr}

  -- The loops of `htaccess_get_http_header`.
  unfoldable pub find_header : List (Bytes × Bytes) → Bytes → Option Bytes
  find_header [] name = none
  find_header (h ∷ l) name =
      let later = find_header l name in
      if length h.0 == length name && strncasecmp_eq h.0 name (length name) then some h.1 else later

  unfoldable pub get_http_header : Request → Bytes → Bytes
  unfolding find_header
  get_http_header r name = elim (find_header r.headers name) [
    | some v ↦ v
    | none ↦ if length name == 4 && strncasecmp_eq name (codes "Host") 4 then r.server else []
  ]

  -- `name.len >= n && ngx_strncasecmp(name.data, prefix, n) == 0`
  abbrev pub has_prefix : Bytes → Bytes → Bool
  has_prefix name prefix =
      leb (length prefix) (length name) && strncasecmp_eq name prefix (length prefix)

  -- The value behind `%{name}`.
  unfoldable pub variable : Request → RequestState → Bytes → Bytes
  unfolding get_http_header env_get
  variable r state name =
      if has_prefix name (codes "ENV:")
      then or_empty (env_get state (drop 4 name))
      else if has_prefix name (codes "HTTP_HOST")
      then r.server
      else if has_prefix name (codes "HTTP:")
      then get_http_header r (drop 5 name)
      else if has_prefix name (codes "QUERY_STRING")
      then state.query_string
      else if has_prefix name (codes "REQUEST_FILENAME")
      then state.filename
      else if has_prefix name (codes "REQUEST_URI")
      then state.uri
      else []

  module _ (r : Request) (state : RequestState) (match : Option Match) (room : ℕ) where
    -- Behind `%{`, by the offset of the closing brace.
    abbrev pub expand_named : Bytes → Bytes → Option ℕ → Outcome (Bytes × Bytes)
    expand_named p out none = error
    expand_named p out (some i) =
        copy_value room out (variable r state (take i p)) >>= λ o. ok (drop (i + 1) p, o)

    abbrev pub expand_variable : Bytes → Bytes → Outcome (Bytes × Bytes)
    expand_variable p out = expand_named p out (strlchr p b'}')

    -- A round of the loop at the byte `c`: the rest of the template, and what is written.
    unfoldable pub expand_next : ℕ → Bytes → Bytes → Outcome (Bytes × Bytes)
    unfolding group variable
    expand_next c [] out = expand_copy room out (c ∷ []) >>= λ o. ok ([], o)
    expand_next c (d ∷ p) out =
        if c == b'\\'
        then (expand_copy room out (d ∷ []) >>= λ o. ok (p, o))
        else if c == b'$' && leb b'0' d && leb d b'9'
        then (group match (d - b'0') >>= λ s. copy_group room out s >>= λ o. ok (p, o))
        else if c == b'%' && d == b'{'
        then expand_variable p out
        else (expand_copy room out (c ∷ []) >>= λ o. ok (d ∷ p, o))

    unfoldable pub expand_loop : ℕ → Bytes → Bytes → Outcome Bytes
    unfolding expand_next
    expand_loop zero p out = out_of_fuel
    expand_loop (suc fuel) [] out = ok out
    expand_loop (suc fuel) (c ∷ p) out = expand_next c p out >>= λ q. expand_loop fuel q.0 q.1

  unfoldable pub expand : Request → RequestState → Bytes → Option Match → Outcome Bytes
  unfolding expand_loop
  expand r state tpl match = expand_loop r state match (expand_room tpl) (suc (length tpl)) tpl []
