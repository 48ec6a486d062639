-- ===== src/Walk/Chains/OnePass.antt =====
-- htaccess_mark_rewrite_chains against one pass over the rules.
use mathlib.Core.List.{append_assoc}
use ngx_htaccess.Common.{
  ℕ, zero, suc, ◌≡◌, refl, ap, ◌∙◌, inl, inr, Bool, true, false, ◌&&◌, List, [], ◌∷◌, ◌++◌, some,
  arith, Bool-cases, if◌then◌else◌, length, length-append, get_elem?,
}
use ngx_htaccess.Directives.{Directive}
use ngx_htaccess.Walk.Chains.{
  is_rule, set_chain_in, mark_next, mark_from, mark_after, mark_loop, mark_rewrite_chains,
}

-- A rule is marked exactly if the rule before it has the flag C; `open` says whether it has.
pub chained : Bool → List Directive → List Directive
chained before [] = []
chained before (d ∷ l) =
    let rule = (if before then set_chain_in d else d) ∷ chained d.rewrite_rule.chain l in
    let no_rule = d ∷ chained before l in if is_rule d then rule else no_rule

-- The list as the loop meets it, where the rule before may have marked the next one.
seed : Bool → List Directive → List Directive
seed true l = mark_next l
seed false l = l

length-seed : (b : Bool) (l : List Directive) → length (seed b l) ≡ length l
unfolding seed mark_next
length-seed false l = refl
length-seed true [] = refl
length-seed true (d ∷ l) = elim (Bool-cases (is_rule d)) [
  | inl rule ↦ rw rule
  | inr other ↦ rw other (ap suc (length-seed true l))
]

get_elem?-append :
    (p l : List Directive) (d : Directive) → get_elem? (p ++ (d ∷ l)) (length p) ≡ some d
get_elem?-append [] l d = refl
get_elem?-append (x ∷ p) l d = get_elem?-append p l d

mark_from-append :
    (p l : List Directive) (d : Directive)
    → mark_from (suc (length p)) (p ++ (d ∷ l)) ≡ p ++ (d ∷ mark_next l)
unfolding mark_from
mark_from-append [] l d = refl
mark_from-append (x ∷ p) l d = ap (◌∷◌ x) (mark_from-append p l d)

mark_after-append :
    (p l : List Directive) (d : Directive)
    → mark_after (length p) (p ++ (d ∷ l)) ≡ p ++ (d ∷ seed (is_rule d && d.rewrite_rule.chain) l)
unfolding mark_after seed
mark_after-append p l d =
    rw (get_elem?-append p l d, mark_after)
      (elim (Bool-cases (is_rule d && d.rewrite_rule.chain)) [
        | inl on ↦ rw on (mark_from-append p l d)
        | inr off ↦ rw off
      ])

length-concat : (p : List Directive) (h : Directive) → length (p ++ (h ∷ [])) ≡ suc (length p)
length-concat p h = omega (arith, length-append p (h ∷ []))

-- One item of the list goes over to the part that is done.
mark_loop_shift :
    (n : ℕ) (p l r : List Directive) (h : Directive)
    → mark_loop n (length (p ++ (h ∷ []))) ((p ++ (h ∷ [])) ++ l) ≡ (p ++ (h ∷ [])) ++ r
    → mark_loop n (suc (length p)) (p ++ (h ∷ l)) ≡ p ++ (h ∷ r)
mark_loop_shift n p l r h e = rw (← length-concat p h, ← append_assoc p (h ∷ []) l) e'
  where
    e' : mark_loop n (length (p ++ (h ∷ []))) ((p ++ (h ∷ [])) ++ l) ≡ p ++ (h ∷ r)
    e' = e ∙ append_assoc p (h ∷ []) r

mark_loop-chained :
    (n : ℕ) (l p : List Directive) (b : Bool)
    → length l ≡ n
    → mark_loop n (length p) (p ++ seed b l) ≡ p ++ chained b l
unfolding mark_loop chained seed mark_next
mark_loop-chained zero [] p true e = refl
mark_loop-chained zero [] p false e = refl
mark_loop-chained zero (d ∷ l) p b e = absurd (omega arith)
mark_loop-chained (suc n) [] p b e = absurd (omega arith)
mark_loop-chained (suc n) (d ∷ l) p false e = elim (Bool-cases (is_rule d)) [
  | inl rule ↦
      rw (mark_after-append p l d, rule)
        (mark_loop_shift n p _ _ d
          (mark_loop-chained n l (p ++ (d ∷ [])) d.rewrite_rule.chain (omega arith)))
  | inr other ↦
      rw (mark_after-append p l d, other)
        (mark_loop_shift n p _ _ d (mark_loop-chained n l (p ++ (d ∷ [])) false (omega arith)))
]
mark_loop-chained (suc n) (d ∷ l) p true e = elim (Bool-cases (is_rule d)) [
  | inl rule ↦
      rw (rule, mark_after-append p l (set_chain_in d), rule)
        (mark_loop_shift n p _ _ (set_chain_in d)
          (mark_loop-chained n l (p ++ (set_chain_in d ∷ [])) d.rewrite_rule.chain (omega arith)))
  | inr other ↦
      rw (other, mark_after-append p (mark_next l) d, other)
        (mark_loop_shift n p _ _ d (mark_loop-chained n l (p ++ (d ∷ [])) true (omega arith)))
]

-- The nested loops mark a rule exactly if the rule before it in the list, with whatever other
-- directives between them, has the flag C; a mark that is there already stays, and nothing else
-- changes.
pub mark_rewrite_chains-chained : (l : List Directive) → mark_rewrite_chains l ≡ chained false l
unfolding mark_rewrite_chains seed
mark_rewrite_chains-chained l = mark_loop-chained (length l) l [] false refl
