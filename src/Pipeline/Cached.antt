-- ===== src/Pipeline/Cached.antt =====
-- The cache changes nothing of a request.
use ngx_htaccess.Common.{
  inl, inr, ◌⊎◌, Bool-cases, false, [], ◌++◌, List, ℕ, zero, suc, ◌≡◌, refl, subst, Bool, true,
  Bytes, Outcome, ok, error, fault, out_of_fuel, ◌>>=◌,
}
use ngx_htaccess.Directives.{MergedCtx}
use ngx_htaccess.Engine.Conds.{Context, Code}
use ngx_htaccess.Engine.Uris.{Http}
use ngx_htaccess.Engine.State.{Response}
use ngx_htaccess.Pipeline.Freed.{Frees}
use ngx_htaccess.Pipeline.{
  start_view, LocConf, View, Passed, again, returns, leaves, walk_conf, run_pass, by_passed, built,
  passes, execute,
}
use ngx_htaccess.Walk.Build.Levels.{Reads, read_levels, all_levels, Reads-build_merged_ctx}
use ngx_htaccess.Walk.Build.Levels.Uncached.{read_uri-cache}
use ngx_htaccess.Walk.Build.Lives.Uncached.{LivesOn, LivesOn-build_merged_ctx}
use ngx_htaccess.Walk.Build.Lives.{IsLive, dangles-IsLive}
use ngx_htaccess.Walk.Build.{dangles, Walking, zero_merged, build_merged_ctx}
use ngx_htaccess.Walk.Load.Views.{IsCoherent}
use ngx_htaccess.Walk.Load.{Worker}

-- A location with the cache on or off.
abbrev pub with_cache : Bool → LocConf → LocConf
with_cache b loc = record loc { cache_enable = b }

-- A result without the cache: the code, and the request, response and state.
unfoldable pub forget : Outcome (Code × (Worker × View)) → Outcome (Code × View)
forget (ok (code, (w, v))) = ok (code, v)
forget error = error
forget fault = fault
forget out_of_fuel = out_of_fuel

-- A result is another one, or a fault for a reason.
abbrev pub SameOrFault : {A : Type 0} → Type 0 → Outcome A → Outcome A → Type 0
SameOrFault F o o' = (o ≡ o') ⊎ ((o ≡ fault) × F)

either_reason :
    {A : Type 0} {F G : Type 0} (o o' : Outcome A)
    → (F → G)
    → SameOrFault F o o'
    → SameOrFault G o o'
either_reason o o' f (inl same) = inl same
either_reason o o' f (inr (failed, reason)) = inr (failed, f reason)

module _ (cx : Context) (loc : LocConf) (b : Bool) where
  open cx use {ngx, sys, root}

  -- The walks of two runs.
  abbrev ReadsWith : Bool → Outcome Walking → Outcome MergedCtx → Type 0
  ReadsWith d = Reads ngx sys (walk_conf root (with_cache d loc))

  -- What the walk of the run without the cache holds stays alive.
  abbrev Lives : List ℕ → Outcome Walking → Type 0
  Lives = LivesOn ngx sys (walk_conf root (with_cache false loc)) refl

  module _ (request_uri : Bytes) where
    abbrev built_with :
        Bool
        → List ℕ
        → Outcome Walking
        → Worker
        → View
        → (Walking → Outcome (Code × (Worker × View)))
        → Outcome (Code × (Worker × View))
    built_with d = built cx (with_cache d loc) request_uri

    -- Both walks returned.
    forget-both :
        (F : Type 0) (held held' : List ℕ) (s s' : Walking) (w w' : Worker) (v : View)
        (k k' : Walking → Outcome (Code × (Worker × View)))
        → dangles held' s' ≡ false
        → (dangles held s ≡ true → F)
        → SameOrFault F (forget (k s)) (forget (k' s'))
        → SameOrFault F
            (forget (built_with b held (ok s) w v k))
            (forget (built_with false held' (ok s') w' v k'))
    unfolding forget
    forget-both F held held' s s' w w' v k k' live reason next =
        elim (Bool-cases (dangles held s)) [
          | inl freed ↦ inr (rw freed refl, reason freed)
          | inr kept ↦ rw (kept, live) next
        ]

    forget-built :
        (F : Type 0) (held held' : List ℕ) (o o' : Outcome Walking) (n : Outcome MergedCtx)
        (w w' : Worker) (v : View) (k k' : Walking → Outcome (Code × (Worker × View)))
        → ReadsWith b o n
        → ReadsWith false o' n
        → Lives held' o'
        → ((s : Walking) → o ≡ ok s → dangles held s ≡ true → F)
        → ((s s' : Walking)
            → o ≡ ok s
            → IsCoherent ngx sys s.worker
            → IsCoherent ngx sys s'.worker
            → IsLive s'.worker (s'.pools ++ held')
            → s.context ≡ s'.context
            → SameOrFault F (forget (k s)) (forget (k' s')))
        → SameOrFault F
            (forget (built_with b held o w v k))
            (forget (built_with false held' o' w' v k'))
    unfolding forget
    forget-built F held held' (ok s) (ok s') n w w' v k k' h h' l reason next =
        let (live, both) = dangles-IsLive held' s' l.0 l.1 in
        forget-both F held held' s s' w w' v k k' live (reason s refl)
          (next s s' refl h.1 h'.1 both (cc (h.0, h'.0)))
    forget-built F held held' (ok s) fault n w w' v k k' h h' l reason next = absurd (cc (h.0, h'))
    forget-built F held held' fault (ok s') n w w' v k k' h h' l reason next = absurd (cc (h, h'.0))
    forget-built F held held' fault fault n w w' v k k' h h' l reason next = inl refl
    forget-built F held held' error o' n w w' v k k' h h' l reason next = absurd h
    forget-built F held held' out_of_fuel o' n w w' v k k' h h' l reason next = absurd h
    forget-built F held held' (ok s) error n w w' v k k' h h' l reason next = absurd h'
    forget-built F held held' (ok s) out_of_fuel n w w' v k k' h h' l reason next = absurd h'
    forget-built F held held' fault error n w w' v k k' h h' l reason next = absurd h'
    forget-built F held held' fault out_of_fuel n w w' v k k' h h' l reason next = absurd h'

    forget-passed :
        (F : Type 0) (w w' : Worker) (o : Outcome Passed)
        (k k' : View → Outcome (Code × (Worker × View)))
        → ((v : View) → o ≡ ok (again v) → SameOrFault F (forget (k v)) (forget (k' v)))
        → SameOrFault F
            (forget (o >>= λ p. by_passed cx (with_cache b loc) request_uri w p k))
            (forget (o >>= λ p. by_passed cx (with_cache false loc) request_uri w' p k'))
    unfolding forget
    forget-passed F w w' (ok (again v)) k k' h = h v refl
    forget-passed F w w' (ok (returns code v)) k k' h = inl refl
    forget-passed F w w' (ok (leaves v)) k k' h = inl refl
    forget-passed F w w' fault k k' h = inl refl
    forget-passed F w w' error k k' h = inl refl
    forget-passed F w w' out_of_fuel k k' h = inl refl

    -- What a walk with the cache on or off reads.
    reads_with :
        (d : Bool) (uri : Bytes) (w : Worker)
        → IsCoherent ngx sys w
        → ReadsWith d (build_merged_ctx ngx sys (walk_conf root (with_cache d loc)) uri w) (
            read_levels ngx sys
              (walk_conf root loc)
              (all_levels ngx sys (walk_conf root loc) uri)
              zero_merged)
    reads_with d uri w h =
        subst
          (λ n. ReadsWith d (build_merged_ctx ngx sys (walk_conf root (with_cache d loc)) uri w) n)
          (read_uri-cache ngx sys (walk_conf root loc) d uri zero_merged)
          (Reads-build_merged_ctx ngx sys (walk_conf root (with_cache d loc)) uri w h)

    forget-passes :
        (n : ℕ) (first : Bool) (held held' : List ℕ) (w w' : Worker) (v : View)
        → IsCoherent ngx sys w
        → IsCoherent ngx sys w'
        → IsLive w' held'
        → SameOrFault
            (Frees cx (with_cache b loc) request_uri n first held w v)
            (forget (passes cx (with_cache b loc) request_uri n first held w v))
            (forget (passes cx (with_cache false loc) request_uri n first held' w' v))
    unfolding passes
    forget-passes zero first held held' w w' v h h' l = unfold forget in inl refl
    forget-passes (suc n) first held held' w w' v h h' l =
        forget-built _ held held' _ _ _ w w' v _ _ (reads_with b v.http.uri w h)
          (reads_with false v.http.uri w' h')
          (LivesOn-build_merged_ctx ngx sys (walk_conf root (with_cache false loc)) refl held'
            v.http.uri w' l)
          (λ s e freed. Frees.here n first held w v s e freed)
          (λ s s' e k k' both same.
            subst
              (λ m.
                SameOrFault (Frees cx (with_cache b loc) request_uri (suc n) first held w v)
                  (forget (
                    run_pass cx first request_uri s.context v >>= λ p.
                    by_passed cx (with_cache b loc) request_uri s.worker p (λ u.
                      passes cx (with_cache b loc) request_uri n false (s.pools ++ held) s.worker
                        u)))
                  (forget (
                    run_pass cx first request_uri m v >>= λ p.
                    by_passed cx (with_cache false loc) request_uri s'.worker p (λ u.
                      passes cx (with_cache false loc) request_uri n false (s'.pools ++ held')
                        s'.worker u))))
              same
              (forget-passed _ s.worker s'.worker (run_pass cx first request_uri s.context v) _ _
                (λ u a.
                  either_reason _ _ (λ f. Frees.behind_pass n first held w v s u e a f)
                    (forget-passes n false (s.pools ++ held) (s'.pools ++ held') s.worker s'.worker
                      u k k' both))))

  pub forget-execute :
      (w w' : Worker) (http : Http) (r : Response)
      → IsCoherent ngx sys w
      → IsCoherent ngx sys w'
      → IsLive w' []
      → SameOrFault
          (Frees cx (with_cache b loc) http.uri loc.max_redirects true [] w (start_view cx http r))
          (forget (execute cx (with_cache b loc) w http r))
          (forget (execute cx (with_cache false loc) w' http r))
  unfolding execute
  forget-execute w w' http r h h' l =
      forget-passes http.uri loc.max_redirects true [] [] w w' _ h h' l
