-- ===== src/Walk/Build/Patterns.antt =====
-- Each rule for files of a merged context has a pattern.
use ngx_htaccess.Common.{
  ℕ, zero, suc, ◌≡◌, ◌≢◌, inl, inr, Bool, true, false, Bool-cases, List, [], ◌∷◌, Option, none,
  some, ◌==◌, ltb, if◌then◌else◌, Bytes, length, All, All-append, Outcome, ok, error, fault,
  out_of_fuel, ◌>>=◌,
}
use ngx_htaccess.Directives.{DirectiveId, Directive, DirCtx, MergedCtx, FilesRule, ParsedFile}
use ngx_htaccess.Ngx.{Ngx}
use ngx_htaccess.Parser.Conds.{byte_at}
use ngx_htaccess.System.{System}
use ngx_htaccess.Walk.Build.{
  Conf, Walking, add_dir, add_loaded, visit, visit_at, walk_uri, build_merged_ctx,
}
use ngx_htaccess.Walk.Load.{Worker, Loaded, loaded, declined, failed, load_file}
use ngx_htaccess.Walk.Merge.{
  Merge, files_rule, merge_require, merge_request, merge_directive, merge_all, merge_parsed,
}

abbrev pub HasPattern : FilesRule → Type 0
HasPattern rule = rule.pattern ≢ []

abbrev pub IsPatterned : MergedCtx → Type 0
IsPatterned m = All HasPattern m.files_rules

module _ (ngx : Ngx) where
  merge_require-IsPatterned :
      (d : Directive) (m : MergedCtx) → IsPatterned m → IsPatterned (merge_require ngx d m)
  merge_require-IsPatterned d m h = elim (Bool-cases (ltb 0 (length d.files_match))) [
    | inl some_pattern ↦ rw some_pattern (
        All-append HasPattern m.files_rules (files_rule ngx d ∷ []) h
          (not_empty d.files_match some_pattern, tt))
    | inr no_pattern ↦ rw no_pattern h
  ]
    where
      not_empty : (p : Bytes) → ltb 0 (length p) ≡ true → p ≢ []
      not_empty [] e = absurd (cc e)
      not_empty (c ∷ p) e = λ q. cc q

  merge_request-IsPatterned :
      (id : DirectiveId) (d : Directive) (m : MergedCtx)
      → IsPatterned m
      → IsPatterned (merge_request ngx id d m)
  unfolding merge_request
  merge_request-IsPatterned DirectiveId.require d m h = merge_require-IsPatterned d m h
  merge_request-IsPatterned DirectiveId.rewrite_engine d m h = h
  merge_request-IsPatterned DirectiveId.rewrite_base d m h = h
  merge_request-IsPatterned DirectiveId.rewrite_cond d m h = h
  merge_request-IsPatterned DirectiveId.rewrite_rule d m h = h
  merge_request-IsPatterned DirectiveId.redirect d m h = h
  merge_request-IsPatterned DirectiveId.redirect_match d m h = h
  merge_request-IsPatterned DirectiveId.redirect_permanent d m h = h
  merge_request-IsPatterned DirectiveId.redirect_temp d m h = h
  merge_request-IsPatterned DirectiveId.auth_type d m h = h
  merge_request-IsPatterned DirectiveId.auth_name d m h = h
  merge_request-IsPatterned DirectiveId.auth_user_file d m h = h
  merge_request-IsPatterned DirectiveId.order d m h = h
  merge_request-IsPatterned DirectiveId.allow d m h = h
  merge_request-IsPatterned DirectiveId.deny d m h = h
  merge_request-IsPatterned DirectiveId.header d m h = h
  merge_request-IsPatterned DirectiveId.expires_active d m h = h
  merge_request-IsPatterned DirectiveId.expires_by_type d m h = h
  merge_request-IsPatterned DirectiveId.expires_default d m h = h
  merge_request-IsPatterned DirectiveId.error_document d m h = h
  merge_request-IsPatterned DirectiveId.options d m h = h
  merge_request-IsPatterned DirectiveId.directory_index d m h = h

  merge_all-IsPatterned :
      (l : List Directive) (g : Merge)
      → IsPatterned g.merged
      → IsPatterned (merge_all ngx l g).merged
  unfolding merge_all merge_directive
  merge_all-IsPatterned [] g h = h
  merge_all-IsPatterned (d ∷ l) g h =
      merge_all-IsPatterned l _ (merge_request-IsPatterned d.id d g.merged h)

  merge_parsed-IsPatterned :
      (parsed : Option ParsedFile) (g : Merge)
      → IsPatterned g.merged
      → IsPatterned (merge_parsed ngx parsed g).merged
  unfolding merge_parsed
  merge_parsed-IsPatterned none g h = h
  merge_parsed-IsPatterned (some f) g h = merge_all-IsPatterned f.directives g h

module _ (ngx : Ngx) (sys : System) (conf : Conf) where
  -- A walk that returned left a context in which each rule for files has a pattern.
  abbrev pub Patterned : Outcome Walking → Type 0
  Patterned (ok s) = IsPatterned s.context
  Patterned _ = Unit

  Patterned->>= :
      (m : Outcome Walking) (f : Walking → Outcome Walking)
      → Patterned m
      → ((s : Walking) → IsPatterned s.context → Patterned (f s))
      → Patterned (m >>= f)
  Patterned->>= (ok s) f h k = k s h
  Patterned->>= error f h k = tt
  Patterned->>= fault f h k = tt
  Patterned->>= out_of_fuel f h k = tt

  visit-Patterned :
      (suffix : Bytes) (dir : DirCtx) (s : Walking)
      → IsPatterned s.context
      → Patterned (visit ngx sys conf suffix dir s)
  unfolding visit add_dir
  visit-Patterned suffix dir s h = loaded_file (load_file ngx sys conf.cache_enable _ s.worker)
    where
      loaded_file :
          (o : Outcome (Worker × Loaded))
          → Patterned (o >>= λ r. ok (add_loaded ngx sys conf dir s r))
      loaded_file (ok (w, loaded parsed)) =
          merge_parsed-IsPatterned ngx parsed (record { merged = s.context; dir = dir }) h
      loaded_file (ok (w, declined)) = h
      loaded_file (ok (w, failed)) = h
      loaded_file error = tt
      loaded_file fault = tt
      loaded_file out_of_fuel = tt

  walk_uri-Patterned :
      (n : ℕ) (uri : Bytes) (i : ℕ) (s : Walking)
      → IsPatterned s.context
      → Patterned (walk_uri ngx sys conf n uri i s)
  unfolding walk_uri
  walk_uri-Patterned zero uri i s h = h
  walk_uri-Patterned (suc n) uri i s h =
      Patterned->>= _ (λ t. walk_uri ngx sys conf n uri (suc i) t)
        (either (byte_at uri i == b'/') (visit_at ngx sys conf uri i s) (visit-Patterned _ _ s h))
        (λ t k. walk_uri-Patterned n uri (suc i) t k)
    where
      either : (b : Bool) (m : Outcome Walking) → Patterned m → Patterned (if b then m else ok s)
      either true m k = k
      either false m k = h

  -- htaccess_build_merged_ctx leaves no rule for files with an empty pattern, whatever the files say.
  pub build_merged_ctx-Patterned :
      (uri : Bytes) (w : Worker) → Patterned (build_merged_ctx ngx sys conf uri w)
  unfolding build_merged_ctx
  build_merged_ctx-Patterned uri w =
      Patterned->>= _ _ (visit-Patterned [] _ (record { worker = w; context = _; pools = _ }) tt)
        (λ s k. walk_uri-Patterned _ uri 1 s k)
