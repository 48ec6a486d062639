-- ===== src/Engine/Auth/Decision.antt =====
-- What decides on a request.
use ngx_htaccess.Common.{
  ◌≡◌, refl, sym, ap, ◌∙◌, inl, inr, Bool, true, false, Bool-cases, ◌&&◌, List, ◌==◌, if◌then◌else◌,
  Bytes, length, All, ok,
}
use ngx_htaccess.Directives.{MergedCtx, FilesRule}
use ngx_htaccess.Engine.Auth.{
  Required, granted, unauthorized, refused, undecided, is_nil, challenge, by_required, asks_nothing,
  by_files, apply_auth,
}
use ngx_htaccess.Engine.Conds.{Context}
use ngx_htaccess.Engine.FilesRules.Denied.{any_denies, files_loop-IsAnswer}
use ngx_htaccess.Engine.FilesRules.{files_target, files_deny}
use ngx_htaccess.Engine.State.{Response, Result}
use ngx_htaccess.Walk.Build.Patterns.{HasPattern}
use ngx_htaccess.Engine.Auth.Kinds.{
  password_of, user_decision, order_decision, decision, require_satisfied-decision,
}

module _ (cx : Context) where
  open cx use {ngx, sys, rx, c_text, request}

  -- What the decision on the requirements is answered with: nothing is said of the request where it
  -- is granted or undecided, the realm is sent where a password is wanted, and otherwise the request
  -- is forbidden.
  abbrev pub outcome_of : MergedCtx → Response → Required → Response × Result
  outcome_of m r granted = (r, Result.declined)
  outcome_of m r undecided = (r, Result.declined)
  outcome_of m r unauthorized = (challenge cx m r, Result.unauthorized)
  outcome_of m r refused = (r, Result.forbidden)

  by_required-outcome_of :
      (m : MergedCtx) (r : Response) (q : Required) → by_required cx m r q ≡ outcome_of m r q
  by_required-outcome_of m r granted = refl
  by_required-outcome_of m r undecided = refl
  by_required-outcome_of m r unauthorized = refl
  by_required-outcome_of m r refused = refl

  asks_nothing-decision : (m : MergedCtx) → asks_nothing m ≡ true → decision cx m ≡ undecided
  unfolding decision
  asks_nothing-decision m h = rw (all_nil (length m.auth_type == 0) (is_nil m.requires) _ h) refl
    where
      all_nil : (a b c : Bool) → (a && (b && c)) ≡ true → b ≡ true
      all_nil true true c h = refl
      all_nil true false c h = h
      all_nil false b c h = absurd (cc h)

  -- Behind the rules for files that do not deny.
  asked-decision :
      (m : MergedCtx) (rules : List FilesRule) (r : Response)
      → by_files cx r (record m { files_rules = rules }, false)
        ≡ ok (record m { files_rules = rules }, by_required cx m r (decision cx m))
  unfolding decision user_decision order_decision password_of challenge
  asked-decision m rules r = elim (Bool-cases (asks_nothing m)) [
    | inl nothing ↦ rw nothing (
        ap (λ q. ok (record m { files_rules = rules }, by_required cx m r q))
          (sym (asks_nothing-decision m nothing)))
    | inr something ↦
        rw (something, require_satisfied-decision cx (record m { files_rules = rules })) refl
  ]

  -- Where each rule for files has a pattern, htaccess_apply_auth returns: it forbids a URI that such a
  -- rule denies, and answers otherwise by the first requirement that decides (all granted, all denied,
  -- or a valid user, whose word counts only with a byte behind it), and by the order of Deny and Allow
  -- only where there is a requirement and none decides. A context without a requirement is declined,
  -- whatever Order and Deny say. The rules that it leaves have patterns too, and deny the same.
  pub apply_auth-decision :
      (m : MergedCtx) (uri : Bytes) (r : Response)
      → All HasPattern m.files_rules
      → (rules : List FilesRule) × (apply_auth cx m uri r
          ≡ ok (
            record m { files_rules = rules },
            (if any_denies rx (files_target uri) m.files_rules
                then (r, Result.forbidden)
                else outcome_of m r (decision cx m)),
          ))
        × All HasPattern rules
        × ((other : Bytes) → any_denies rx other rules ≡ any_denies rx other m.files_rules)
  unfolding apply_auth files_deny
  apply_auth-decision m uri r h =
      let a = files_loop-IsAnswer rx m.files_rules (files_target uri) h in
      (
        a.left,
        rw a.answer (answered a.left (any_denies rx (files_target uri) m.files_rules)),
        a.patterned,
        a.same,
      )
    where
      answered :
          (rules : List FilesRule) (b : Bool)
          → by_files cx r (record m { files_rules = rules }, b)
            ≡ ok (
              record m { files_rules = rules },
              (if b then (r, Result.forbidden) else outcome_of m r (decision cx m)),
            )
      answered rules true = refl
      answered rules false =
          asked-decision m rules r
          ∙ ap (λ a. ok (record m { files_rules = rules }, a))
              (by_required-outcome_of m r (decision cx m))
