-- ===== src/Engine/Rewrite/Sound.antt =====
-- What the rules promise, and the steps behind a rule that matched.
use ngx_htaccess.Common.{
  ℕ, ◌≡◌, ◌≢◌, refl, ◌∙◌, inl, inr, Bool, true, false, not, ◌&&◌, ◌||◌, List, [], ◌∷◌, Option, none,
  some, if◌then◌else◌, Bytes, Bool-cases, take, drop, ◌+◌, arith, Outcome, ok, error, fault,
  out_of_fuel, ◌>>=◌, IsDone,
}
use ngx_htaccess.Directives.{RewriteRule, DirCtx}
use ngx_htaccess.Engine.Conds.{Context}
use ngx_htaccess.Engine.Expand.Total.{expand-IsDone}
use ngx_htaccess.Engine.Expand.{expand}
use ngx_htaccess.Engine.Uris.Target.{IsPath, apply_target_uri-IsPath}
use ngx_htaccess.Engine.Rewrite.{
  Rewriting, Next, onwards, returns, set_expanded, set_at, apply_env_flags, keep_sub, full_target,
  send_target, by_target, by_sub, continue,
}
use ngx_htaccess.Engine.Uris.{apply_target_uri, apply_substitution}
use ngx_htaccess.Engine.State.{RequestState, Result, Match, env_set}

module _ (cx : Context) where
  open cx use {ngx, rx, request}

  abbrev pub Agrees : Rewriting → Type 0
  Agrees w = w.state.uri ≡ w.http.uri

  -- What a result promises: a redirect has a code, and otherwise the state has the request's URI; a
  -- rewrite that is done leaves a path.
  abbrev pub Promises : Result → Rewriting → Type 0
  Promises Result.redirect w = w.state.redirect_code ≢ 0
  Promises Result.done w = Agrees w × IsPath w.http.uri
  Promises _ w = Agrees w

  abbrev pub Sound : Outcome Next → Type 0
  Sound (ok (onwards w)) = Agrees w
  Sound (ok (returns r w)) = Promises r w
  Sound fault = Unit
  Sound _ = ⊥

  pub Sound-if : (b : Bool) (m n : Outcome Next) → Sound m → Sound n → Sound (if b then m else n)
  Sound-if true m n h k = h
  Sound-if false m n h k = k

  pub Sound-continue :
      (m : Outcome Next) (k : Rewriting → Outcome Next)
      → Sound m
      → ((v : Rewriting) → Agrees v → Sound (k v))
      → Sound (continue cx m k)
  Sound-continue (ok (onwards v)) k h next = next v h
  Sound-continue (ok (returns r v)) k h next = h
  Sound-continue error k h next = h
  Sound-continue fault k h next = tt
  Sound-continue out_of_fuel k h next = h

  -- The variables of a rule change nothing else of the state.
  abbrev pub HasUri : Bytes → Outcome RequestState → Type 0
  HasUri uri (ok t) = t.uri ≡ uri
  HasUri uri fault = Unit
  HasUri uri _ = ⊥

  set_at-HasUri :
      (s : RequestState) (m : Match) (text : Bytes) (i : Option ℕ)
      → HasUri s.uri (set_at cx s m text i)
  set_at-HasUri s m text none = refl
  set_at-HasUri s m text (some i) =
      set (expand ngx request s (drop (i + 1) text) (some m))
        (expand-IsDone ngx request s (drop (i + 1) text) (some m))
    where
      set : (e : Outcome Bytes) → IsDone e → HasUri s.uri (set_expanded cx s (take i text) e)
      set (ok value) d = unfold env_set in refl
      set error d = refl
      set fault d = tt
      set out_of_fuel d = d

  pub apply_env_flags-HasUri :
      (l : List Bytes) (m : Match) (s : RequestState) → HasUri s.uri (apply_env_flags cx l m s)
  unfolding apply_env_flags
  apply_env_flags-HasUri [] m s = refl
  apply_env_flags-HasUri (text ∷ l) m s =
      then_rest (set_at cx s m text (ngx.strlchr text b':'))
        (set_at-HasUri s m text (ngx.strlchr text b':')) (λ t. apply_env_flags-HasUri l m t)
    where
      then_rest :
          (o : Outcome RequestState)
          → HasUri s.uri o
          → ((t : RequestState) → HasUri t.uri (apply_env_flags cx l m t))
          → HasUri s.uri (o >>= λ t. apply_env_flags cx l m t)
      then_rest (ok t) h k = moved (apply_env_flags cx l m t) (k t)
        where
          moved : (o : Outcome RequestState) → HasUri t.uri o → HasUri s.uri o
          moved (ok v) e = e ∙ h
          moved error e = e
          moved fault e = tt
          moved out_of_fuel e = e
      then_rest error h k = h
      then_rest fault h k = tt
      then_rest out_of_fuel h k = h

  Sound-send_target :
      (rule : RewriteRule) (w : Rewriting) (out : Bytes) → Sound (ok (send_target cx rule w out))
  unfolding send_target apply_target_uri
  Sound-send_target rule w out = elim (Bool-cases rule.redirect) [
    | inl redirects ↦ rw redirects (ground arith)
    | inr other ↦ rw other (elim (Bool-cases (rule.last || rule.end)) [
      | inl ends ↦ rw ends (refl, (apply_target_uri-IsPath ngx w.state out rule.qsa).0)
      | inr goes ↦ rw goes refl
    ])
  ]

  Sound-by_target :
      (rule : RewriteRule) (w : Rewriting) (o : Outcome Bytes)
      → IsDone o
      → Agrees w
      → Sound (by_target cx rule w o)
  Sound-by_target rule w (ok out) d h = Sound-send_target rule w out
  Sound-by_target rule w error d h = h
  Sound-by_target rule w fault d h = tt
  Sound-by_target rule w out_of_fuel d h = d

  keep_sub-IsDone : (out : Bytes) (o : Outcome Bytes) → IsDone o → IsDone (keep_sub cx out o)
  keep_sub-IsDone out (ok sub) d = tt
  keep_sub-IsDone out error d = tt
  keep_sub-IsDone out fault d = tt
  keep_sub-IsDone out out_of_fuel d = d

  if-IsDone : (b : Bool) (m n : Outcome Bytes) → IsDone m → IsDone n → IsDone (if b then m else n)
  if-IsDone true m n h k = h
  if-IsDone false m n h k = k

  full_target-IsDone :
      (dir : DirCtx) (rule : RewriteRule) (m : Match) (s : RequestState) (sub : Bytes)
      → IsDone (full_target cx dir rule m s sub)
  unfolding full_target
  full_target-IsDone dir rule m s sub =
      let out = apply_substitution rule m.text dir.rewrite_base in
      if-IsDone _ (keep_sub cx out (expand ngx request s out (some m))) (ok sub)
        (keep_sub-IsDone out (expand ngx request s out (some m))
          (expand-IsDone ngx request s out (some m)))
        tt

  pub Sound-by_sub :
      (dir : DirCtx) (rule : RewriteRule) (m : Match) (w : Rewriting) (o : Outcome Bytes)
      → IsDone o
      → Agrees w
      → Sound (by_sub cx dir rule m w o)
  Sound-by_sub dir rule m w (ok sub) d h =
      Sound-if (rule.chain && not (rule.last || rule.end)) (ok (onwards w))
        (by_target cx rule w (full_target cx dir rule m w.state sub)) h
        (Sound-by_target rule w (full_target cx dir rule m w.state sub)
          (full_target-IsDone dir rule m w.state sub) h)
  Sound-by_sub dir rule m w error d h = h
  Sound-by_sub dir rule m w fault d h = tt
  Sound-by_sub dir rule m w out_of_fuel d h = d
