-- ===== src/Walk/Chains.antt =====
-- htaccess_mark_rewrite_chains: the rules behind a rule with the flag C.
pub mod OnePass
use ngx_htaccess.Common.{
  ℕ, zero, suc, ◌+◌, Bool, true, false, ◌&&◌, List, [], ◌∷◌, none, some, if◌then◌else◌, length,
  get_elem?,
}
use ngx_htaccess.Directives.{DirectiveId, Directive}

-- `d->id == HTACCESS_DIR_REWRITE_RULE`
abbrev pub is_rule_id : DirectiveId → Bool
is_rule_id DirectiveId.rewrite_rule = true
is_rule_id _ = false

abbrev pub is_rule : Directive → Bool
is_rule d = is_rule_id d.id

abbrev pub set_chain_in : Directive → Directive
set_chain_in d = record d { rewrite_rule = record (d.rewrite_rule) { chain_in = true } }

-- The inner loop: the first rule is marked.
unfoldable pub mark_next : List Directive → List Directive
mark_next [] = []
mark_next (d ∷ l) = let rest = d ∷ mark_next l in if is_rule d then set_chain_in d ∷ l else rest

-- The same from position `j` on.
unfoldable pub mark_from : ℕ → List Directive → List Directive
unfolding mark_next
mark_from zero l = mark_next l
mark_from (suc j) [] = []
mark_from (suc j) (d ∷ l) = d ∷ mark_from j l

-- One round of the outer loop, at position `i`.
unfoldable pub mark_after : ℕ → List Directive → List Directive
unfolding mark_from
mark_after i l = elim (get_elem? l i) [
  | none ↦ l
  | some d ↦ if is_rule d && d.rewrite_rule.chain then mark_from (suc i) l else l
]

-- The outer loop, with the rounds that are left.
unfoldable pub mark_loop : ℕ → ℕ → List Directive → List Directive
unfolding mark_after
mark_loop zero i l = l
mark_loop (suc n) i l = mark_loop n (suc i) (mark_after i l)

unfoldable pub mark_rewrite_chains : List Directive → List Directive
unfolding mark_loop
mark_rewrite_chains l = mark_loop (length l) 0 l
