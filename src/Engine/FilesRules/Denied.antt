-- ===== src/Engine/FilesRules/Denied.antt =====
-- Which URIs the rules for files deny.
use ngx_htaccess.Common.{
  ◌≡◌, ◌≢◌, refl, sym, subst, ◌∙◌, inl, inr, Bool, true, false, Bool-cases, ◌&&◌, ◌||◌, List, [],
  ◌∷◌, Option, none, some, ◌==◌, if◌then◌else◌, Bytes, length, All, arith, Outcome, ok,
}
use ngx_htaccess.Directives.{FilesRule, Regex, MergedCtx}
use ngx_htaccess.Engine.FilesRules.{
  files_regex, is_match, files_target, keep_rule, compile_into, compile_files_rule, exec_rule,
  by_compiled, files_loop, files_deny, apply_files_deny,
}
use ngx_htaccess.Walk.Build.Patterns.{HasPattern}
use ngx_htaccess.Engine.State.{Result, Regexes}

module _ (rx : Regexes) where
  -- The expression that a rule is compiled to, if it compiles.
  abbrev pub regex_by : FilesRule → Option Regex → Option Regex
  regex_by rule (some e) = some e
  regex_by rule none = if rx.compiles (files_regex rule) then some (files_regex rule) else none

  abbrev pub matches_by : Option Regex → Bytes → Bool
  matches_by none target = false
  matches_by (some e) target = is_match (rx.exec e target)

  -- A rule denies a target: it denies, its pattern compiles and matches.
  abbrev pub denies : Bytes → FilesRule → Bool
  denies target rule = rule.deny && matches_by (regex_by rule rule.regex) target

  unfoldable pub any_denies : Bytes → List FilesRule → Bool
  any_denies target [] = false
  any_denies target (rule ∷ l) = denies target rule || any_denies target l

  -- What the loop promises of its rules: it returns with the answer, and the rules that it leaves
  -- have patterns and deny the same.
  pub record IsAnswer (target : Bytes) (rules : List FilesRule)
      (o : Outcome (List FilesRule × Bool)) : Type 0 where
    pub left : List FilesRule
    pub answer : o ≡ ok (left, any_denies target rules)
    pub patterned : All HasPattern left
    pub same : (other : Bytes) → any_denies other left ≡ any_denies other rules

  keep_rule-IsAnswer :
      (target : Bytes) (rule kept : FilesRule) (l : List FilesRule)
      (o : Outcome (List FilesRule × Bool))
      → IsAnswer target l o
      → denies target rule ≡ false
      → HasPattern kept
      → ((other : Bytes) → denies other kept ≡ denies other rule)
      → IsAnswer target (rule ∷ l) (keep_rule kept o)
  unfolding any_denies
  keep_rule-IsAnswer target rule kept l o a off p same = record {
    left = kept ∷ a.left;
    answer = rw (a.answer, off) refl;
    patterned = (p, a.patterned);
    same = λ other. rw (same other, a.same other) refl;
  }

  denied-IsAnswer :
      (target : Bytes) (rule kept : FilesRule) (l : List FilesRule)
      → All HasPattern l
      → denies target rule ≡ true
      → HasPattern kept
      → ((other : Bytes) → denies other kept ≡ denies other rule)
      → IsAnswer target (rule ∷ l) (ok (kept ∷ l, true))
  unfolding any_denies
  denied-IsAnswer target rule kept l h on p same = record {
    left = kept ∷ l;
    answer = rw on refl;
    patterned = (p, h);
    same = λ other. rw (same other) refl;
  }

  -- A rule that denies, whose expression is `e`.
  exec_rule-IsAnswer :
      (target : Bytes) (rule kept : FilesRule) (e : Regex) (l : List FilesRule)
      (o : Outcome (List FilesRule × Bool))
      → All HasPattern l
      → HasPattern kept
      → ((other : Bytes) → denies other rule ≡ is_match (rx.exec e other))
      → ((other : Bytes) → denies other kept ≡ is_match (rx.exec e other))
      → IsAnswer target l o
      → IsAnswer target (rule ∷ l) (exec_rule rx kept (some e) target l o)
  exec_rule-IsAnswer target rule kept e l o h p before after a =
      elim (Bool-cases (is_match (rx.exec e target))) [
        | inl on ↦ rw on (
            denied-IsAnswer target rule kept l h (before target ∙ on) p
              (λ other. after other ∙ sym (before other)))
        | inr off ↦ rw off (
            keep_rule-IsAnswer target rule kept l o a (before target ∙ off) p
              (λ other. after other ∙ sym (before other)))
      ]

  no_pattern : (p : Bytes) → p ≢ [] → (length p == 0) ≡ false
  no_pattern [] h = absurd (h refl)
  no_pattern (c ∷ p) h = ground arith

  -- A rule that denies, by its expression.
  by_compiled-IsAnswer :
      (target : Bytes) (rule : FilesRule) (r : Option Regex) (l : List FilesRule)
      (o : Outcome (List FilesRule × Bool))
      → rule.regex ≡ r
      → rule.deny ≡ true
      → HasPattern rule
      → All HasPattern l
      → IsAnswer target l o
      → IsAnswer target (rule ∷ l) (by_compiled rx rule (compile_into rx rule r) target l o)
  by_compiled-IsAnswer target rule (some e) l o q on p h a =
      subst (λ r. IsAnswer target (rule ∷ l) (exec_rule rx rule r target l o)) (sym q)
        (exec_rule-IsAnswer target rule rule e l o h p denied denied a)
    where
      denied : (other : Bytes) → denies other rule ≡ is_match (rx.exec e other)
      denied other = rw (on, q) refl
  by_compiled-IsAnswer target rule none l o q on p h a =
      elim (Bool-cases (rx.compiles (files_regex rule))) [
        | inl good ↦
            rw (no_pattern rule.pattern p, good)
              (exec_rule-IsAnswer target rule (record rule { regex = some (files_regex rule) })
                (files_regex rule) l o h p (λ other. rw (on, q, good) refl) (λ other. rw on refl) a)
        | inr bad ↦
            rw (no_pattern rule.pattern p, bad)
              (keep_rule-IsAnswer target rule rule l o a (rw (on, q, bad) refl) p (λ other. refl))
      ]

  pub files_loop-IsAnswer :
      (rules : List FilesRule) (target : Bytes)
      → All HasPattern rules
      → IsAnswer target rules (files_loop rx rules target)
  unfolding files_loop any_denies compile_files_rule
  files_loop-IsAnswer [] target h = record {
    left = [];
    answer = refl;
    patterned = tt;
    same = λ other. refl;
  }
  files_loop-IsAnswer (rule ∷ l) target h =
      let o = files_loop rx l target in
      let a = files_loop-IsAnswer l target h.1 in
      let compiled = by_compiled rx rule (compile_into rx rule rule.regex) target l o in
      elim (Bool-cases rule.deny) [
        | inl on ↦
            subst (λ b. IsAnswer target (rule ∷ l) (if b then compiled else keep_rule rule o))
              (sym on) (by_compiled-IsAnswer target rule rule.regex l o refl on h.0 h.1 a)
        | inr off ↦
            subst (λ b. IsAnswer target (rule ∷ l) (if b then compiled else keep_rule rule o))
              (sym off)
              (keep_rule-IsAnswer target rule rule l o a (rw off refl) h.0 (λ other. refl))
      ]

  -- Where each rule for files has a pattern, htaccess_apply_files_deny returns: it is forbidden
  -- exactly if a rule denies whose pattern compiles and matches the URI without its first slash. The
  -- rules that it leaves have patterns too, and deny the same URIs; nothing else of the context
  -- changes.
  pub apply_files_deny-any_denies :
      (m : MergedCtx) (uri : Bytes)
      → All HasPattern m.files_rules
      → (rules : List FilesRule) × (apply_files_deny rx m uri
          ≡ ok (
            record m { files_rules = rules },
            (if any_denies (files_target uri) m.files_rules
                then Result.forbidden
                else Result.declined),
          ))
        × All HasPattern rules
        × ((other : Bytes) → any_denies other rules ≡ any_denies other m.files_rules)
  unfolding apply_files_deny files_deny
  apply_files_deny-any_denies m uri h =
      let a = files_loop-IsAnswer m.files_rules (files_target uri) h in
      (a.left, rw a.answer refl, a.patterned, a.same)
