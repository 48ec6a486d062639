-- ===== src/Engine/Rewrite/Chains.antt =====
-- A chain of rules whose first rule fails.
use ngx_htaccess.Common.{
  ◌≡◌, refl, inl, inr, ◌⊎◌, Bool, Bool-cases, true, false, not, ◌&&◌, List, [], ◌∷◌, ◌++◌, none,
  some, All, ok,
}
use ngx_htaccess.Directives.{Directive, RewriteRule, Regex, DirCtx}
use ngx_htaccess.Engine.Conds.{Context, match_conditions}
use ngx_htaccess.Engine.Rewrite.{
  Rewriting, broken_chain, apply_exec, by_regex, apply_rule, is_rewrite_rule, apply_directives,
}
use ngx_htaccess.Engine.State.{unmatched}
use ngx_htaccess.Engine.Uris.{compile_rule, relative_uri}

abbrev pub inactive : Rewriting → Rewriting
inactive w = record w { chain_active = false }

passes_over :
    (chain_in active : Bool) → chain_in ≡ true → active ≡ false → (chain_in && not active) ≡ true
passes_over true false h k = refl
passes_over true true h k = absurd (cc k)
passes_over false active h k = absurd (cc h)

module _ (cx : Context) (dir : DirCtx) where
  open cx use {rx}

  -- A directive within a chain: no rule, or one behind a rule with the flag C.
  abbrev pub IsInChain : Directive → Type 0
  IsInChain d = (is_rewrite_rule cx d.id ≡ false) ⊎ (d.rewrite_rule.chain_in ≡ true)

  -- The pattern does not compile, a condition fails, or the pattern does not match.
  abbrev pub Fails : RewriteRule → Rewriting → Type 0
  Fails rule w =
      (compile_rule rx rule ≡ none)
      ⊎ ((e : Regex) × (compile_rule rx rule ≡ some e)
          × ((match_conditions (record cx { state = w.state }) rule.conditions ≡ ok false)
              ⊎ ((match_conditions (record cx { state = w.state }) rule.conditions ≡ ok true)
                  × (rx.exec e (relative_uri w.state.uri dir.url_prefix) ≡ unmatched))))

  by_regex-Fails :
      (rule : RewriteRule) (w : Rewriting)
      → Fails rule w
      → by_regex cx dir rule w (compile_rule rx rule) ≡ broken_chain cx rule w
  unfolding apply_exec
  by_regex-Fails rule w (inl broken) = rw broken refl
  by_regex-Fails rule w (inr (e, compiled, inl refused)) = rw (compiled, refused) refl
  by_regex-Fails rule w (inr (e, compiled, inr (taken, missed))) = rw (compiled, taken, missed) refl

  -- Where no chain is active, the directives of a chain do nothing.
  apply_directives-skip :
      (l rest : List Directive) (w : Rewriting)
      → All IsInChain l
      → w.chain_active ≡ false
      → apply_directives cx dir (l ++ rest) w ≡ apply_directives cx dir rest w
  unfolding apply_directives apply_rule
  apply_directives-skip [] rest w h off = refl
  apply_directives-skip (d ∷ l) rest w h off = elim (Bool-cases (is_rewrite_rule cx d.id)) [
    | inl rule ↦ elim (h.0) [
      | inl none_there ↦ absurd (cc (rule, none_there))
      | inr behind ↦
          rw (rule, passes_over d.rewrite_rule.chain_in w.chain_active behind off)
            (apply_directives-skip l rest w h.1 off)
    ]
    | inr other ↦ rw other (apply_directives-skip l rest w h.1 off)
  ]

  -- A rule with the flag C that fails ends its chain: the rules behind it that are marked as part of
  -- the chain are passed over, whatever they are, and htaccess_apply_rewrite goes on behind them with
  -- the state that it had before the rule, and no chain active.
  pub apply_directives-chain :
      (d : Directive) (l rest : List Directive) (w : Rewriting)
      → is_rewrite_rule cx d.id ≡ true
      → d.rewrite_rule.chain ≡ true
      → (d.rewrite_rule.chain_in && not w.chain_active) ≡ false
      → Fails d.rewrite_rule w
      → All IsInChain l
      → apply_directives cx dir (d ∷ (l ++ rest)) w ≡ apply_directives cx dir rest (inactive w)
  unfolding apply_directives apply_rule
  apply_directives-chain d l rest w rule chain tested fails h =
      rw (rule, tested, by_regex-Fails d.rewrite_rule w fails, chain)
        (apply_directives-skip l rest (inactive w) h refl)
