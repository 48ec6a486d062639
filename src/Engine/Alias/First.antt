-- ===== src/Engine/Alias/First.antt =====
-- The redirect that is taken is the first of all directories.
use ngx_htaccess.Common.{
  ◌≡◌, refl, sym, ap, ◌∙◌, Bool, true, false, List, [], ◌∷◌, ◌++◌, Option, none, some,
  if◌then◌else◌,
}
use ngx_htaccess.Directives.{Directive, AliasRedirect, Regex, DirCtx, MergedCtx}
use ngx_htaccess.Engine.Alias.{
  Aliased, redirected, passed, broken, alias_match, match_compiled, compile_alias, alias_kind,
  moved, by_match, by_kind, alias_directives, by_directives, alias_dirs, alias_result, apply_alias,
}
use ngx_htaccess.Engine.State.{RequestState, Regexes}

-- The first of two.
abbrev pub or_later : Option RequestState → Option RequestState → Option RequestState
or_later (some s) later = some s
or_later none later = later

-- The directives of all directories, in their order.
pub all_directives : List DirCtx → List Directive
all_directives [] = []
all_directives (dir ∷ l) = dir.directives ++ all_directives l

module _ (rx : Regexes) (s : RequestState) where
  -- Where a match of the alias leads.
  abbrev pub target : AliasRedirect → Aliased → Option RequestState
  target alias (redirected out) = some (moved rx alias out s)
  target alias _ = none

  abbrev pub redirect_by : Directive → Option Bool → Option RequestState
  redirect_by d none = none
  redirect_by d (some regex) = target d.alias (alias_match rx d.alias s.uri regex).0

  -- Where a directive alone leads.
  abbrev pub redirect_of : Directive → Option RequestState
  redirect_of d = redirect_by d (alias_kind rx d.id)

  pub first_redirect : List Directive → Option RequestState
  first_redirect [] = none
  first_redirect (d ∷ l) = or_later (redirect_of d) (first_redirect l)

  first_redirect-append :
      (l k : List Directive)
      → first_redirect (l ++ k) ≡ or_later (first_redirect l) (first_redirect k)
  unfolding first_redirect
  first_redirect-append [] k = refl
  first_redirect-append (d ∷ l) k =
      rw (first_redirect-append l k) (assoc (redirect_of d) (first_redirect l))
    where
      assoc :
          (a b : Option RequestState)
          → or_later a (or_later b (first_redirect k)) ≡ or_later (or_later a b) (first_redirect k)
      assoc (some t) b = refl
      assoc none b = refl

  -- The match changes no more of an alias than its compiled expression.
  permanent-alias_match :
      (alias : AliasRedirect) (regex : Bool)
      → (alias_match rx alias s.uri regex).1.permanent ≡ alias.permanent
  unfolding alias_match
  permanent-alias_match alias false = refl
  permanent-alias_match alias true = compiled (compile_alias rx alias)
    where
      compiled :
          (e : Option Regex) → (match_compiled rx alias s.uri e).1.permanent ≡ alias.permanent
      compiled none = refl
      compiled (some e) = refl

  by_match-target :
      (d : Directive) (r : Aliased × AliasRedirect) (l : List Directive)
      (rest : List Directive × Option RequestState)
      → r.1.permanent ≡ d.alias.permanent
      → (by_match rx d r l rest s).1 ≡ or_later (target d.alias r.0) rest.1
  by_match-target d (redirected out, alias) l rest e =
      ap (λ b. some (record s { uri = out; redirect_code = if b then 301 else 302 })) e
  by_match-target d (passed, alias) l rest e = refl
  by_match-target d (broken, alias) l rest e = refl

  by_kind-redirect_by :
      (d : Directive) (kind : Option Bool) (l : List Directive)
      (rest : List Directive × Option RequestState)
      → (by_kind rx d kind l rest s).1 ≡ or_later (redirect_by d kind) rest.1
  by_kind-redirect_by d none l rest = refl
  by_kind-redirect_by d (some regex) l rest =
      by_match-target d (alias_match rx d.alias s.uri regex) l rest
        (permanent-alias_match d.alias regex)

  alias_directives-first : (l : List Directive) → (alias_directives rx l s).1 ≡ first_redirect l
  unfolding alias_directives first_redirect
  alias_directives-first [] = refl
  alias_directives-first (d ∷ l) =
      by_kind-redirect_by d (alias_kind rx d.id) l (alias_directives rx l s)
      ∙ ap (or_later (redirect_of d)) (alias_directives-first l)

  by_directives-or_later :
      (dir : DirCtx) (r : List Directive × Option RequestState) (l : List DirCtx)
      (rest : List DirCtx × Option RequestState)
      → (by_directives rx dir r l rest).1 ≡ or_later r.1 rest.1
  by_directives-or_later dir (ds, some t) l rest = refl
  by_directives-or_later dir (ds, none) l rest = refl

  alias_dirs-first : (l : List DirCtx) → (alias_dirs rx l s).1 ≡ first_redirect (all_directives l)
  unfolding alias_dirs all_directives
  alias_dirs-first [] = unfold first_redirect in refl
  alias_dirs-first (dir ∷ l) =
      by_directives-or_later dir (alias_directives rx dir.directives s) l (alias_dirs rx l s)
      ∙ ap (λ t. or_later t (alias_dirs rx l s).1) (alias_directives-first dir.directives)
      ∙ ap (or_later (first_redirect dir.directives)) (alias_dirs-first l)
      ∙ sym (first_redirect-append dir.directives (all_directives l))

  -- htaccess_apply_alias redirects where the first of all directives of all directories that match
  -- leads, with its code, and declines with the state as it was where none matches: a directive that
  -- does not match, or whose pattern does not compile or fails, changes nothing of this.
  pub apply_alias-first_redirect :
      (m : MergedCtx)
      → (apply_alias rx m s).1 ≡ alias_result rx s (first_redirect (all_directives m.dirs))
  unfolding apply_alias
  apply_alias-first_redirect m = ap (alias_result rx s) (alias_dirs-first m.dirs)
