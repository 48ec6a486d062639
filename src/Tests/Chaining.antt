-- ===== src/Tests/Chaining.antt =====
-- A chain of rules at a concrete request.
use ngx_htaccess.Common.{◌≡◌, refl, inr, true, false, [], ◌∷◌, ◌++◌, codes}
use ngx_htaccess.Directives.{Directive, DirectiveId, DirCtx, zero_directive, zero_rule}
use ngx_htaccess.Engine.Conds.{match_conditions}
use ngx_htaccess.Engine.Rewrite.Chains.{Fails, inactive, apply_directives-chain}
use ngx_htaccess.Engine.Rewrite.{Rewriting, apply_directives}
use ngx_htaccess.Engine.Uris.{compile_rule}
use ngx_htaccess.Tests.Engines.{context_of, http, state}
use ngx_htaccess.Walk.Build.{new_dir}

abbrev dir : DirCtx
dir = new_dir (codes "/w") []

abbrev rewriting : Rewriting
rewriting = record { http = http; state = state; chain_active = false }

-- `RewriteRule ^a - [C]`, which does not match, and the rule behind it.
abbrev first_rule : Directive
first_rule = record (zero_directive DirectiveId.rewrite_rule) {
  rewrite_rule = record zero_rule { pattern = codes "^a"; substitution = codes "-"; chain = true };
}

abbrev second_rule : Directive
second_rule = record (zero_directive DirectiveId.rewrite_rule) {
  rewrite_rule = record zero_rule {
    pattern = codes "^b";
    substitution = codes "/c";
    chain_in = true;
  };
}

first_rule-Fails : Fails context_of dir first_rule.rewrite_rule rewriting
unfolding compile_rule match_conditions
first_rule-Fails = inr (record { pattern = codes "^a"; caseless = false }, refl, inr (refl, refl))

apply_directives-chain_example :
    apply_directives context_of dir
      (first_rule ∷ ((second_rule ∷ []) ++ (second_rule ∷ [])))
      rewriting
    ≡ apply_directives context_of dir (second_rule ∷ []) (inactive rewriting)
apply_directives-chain_example =
    apply_directives-chain context_of dir first_rule (second_rule ∷ []) (second_rule ∷ []) rewriting
      refl refl refl first_rule-Fails (inr refl, tt)
