-- ===== src/Engine/Conds/Order.antt =====
-- Which lists of conditions hold.
use ngx_htaccess.Common.{
  ◌≡◌, refl, ap, ◌↔◌, ◌⊎◌, inl, inr, Bool, true, false, List, [], ◌∷◌, ◌++◌, All, Outcome, ok,
  error, fault, out_of_fuel, ◌>>=◌,
}
use ngx_htaccess.Directives.{RewriteCond}
use ngx_htaccess.Engine.Conds.{Context, Code, is_ok, test_cond, go_on, match_conditions}

module _ (cx : Context) where
  -- The condition's test ends with NGX_OK, or with another code.
  abbrev pub Passes : RewriteCond → Type 0
  Passes c = (rc : Code) × (test_cond cx c ≡ ok rc) × (is_ok rc ≡ true)

  abbrev pub Fails : RewriteCond → Type 0
  Fails c = (rc : Code) × (test_cond cx c ≡ ok rc) × (is_ok rc ≡ false)

  -- A condition that lets the loop go on: it passes, or it has OR and fails.
  abbrev pub GoesOn : RewriteCond → Type 0
  GoesOn c = Passes c ⊎ ((c.or_next ≡ true) × Fails c)

  -- A condition with OR passes, and those before it let the loop go on.
  pub record IsTaken (l : List RewriteCond) : Type 0 where
    pub before : List RewriteCond
    pub taken : RewriteCond
    pub behind : List RewriteCond
    pub splits : l ≡ before ++ (taken ∷ behind)
    pub has_or : taken.or_next ≡ true
    pub passes : Passes taken
    pub reached : All GoesOn before

  IsTaken-cons : (c : RewriteCond) (l : List RewriteCond) → GoesOn c → IsTaken l → IsTaken (c ∷ l)
  IsTaken-cons c l g t = record {
    before = c ∷ t.before;
    taken = t.taken;
    behind = t.behind;
    splits = ap (◌∷◌ c) t.splits;
    has_or = t.has_or;
    passes = t.passes;
    reached = (g, t.reached);
  }

  go_on-split :
      (or_next passed : Bool) (rest : Outcome Bool)
      → go_on cx or_next passed rest ≡ ok true
      → ((or_next ≡ true) × (passed ≡ true))
        ⊎ ((rest ≡ ok true) × ((passed ≡ true) ⊎ ((or_next ≡ true) × (passed ≡ false))))
  go_on-split true true rest h = inl (refl, refl)
  go_on-split true false rest h = inr (h, inr (refl, refl))
  go_on-split false true rest h = inr (h, inl refl)
  go_on-split false false rest h = absurd (cc h)

  match_conditions_split :
      (l : List RewriteCond) → match_conditions cx l ≡ ok true → All GoesOn l ⊎ IsTaken l
  unfolding match_conditions
  match_conditions_split [] h = inl tt
  match_conditions_split (c ∷ l) h = by_test (test_cond cx c) refl h (match_conditions_split l)
    where
      cons : GoesOn c → (All GoesOn l ⊎ IsTaken l) → All GoesOn (c ∷ l) ⊎ IsTaken (c ∷ l)
      cons g (inl all) = inl (g, all)
      cons g (inr t) = inr (IsTaken-cons c l g t)

      by_test :
          (m : Outcome Code)
          → test_cond cx c ≡ m
          → (m >>= λ rc. go_on cx c.or_next (is_ok rc) (match_conditions cx l)) ≡ ok true
          → (match_conditions cx l ≡ ok true → All GoesOn l ⊎ IsTaken l)
          → All GoesOn (c ∷ l) ⊎ IsTaken (c ∷ l)
      by_test error q h later = absurd (cc h)
      by_test fault q h later = absurd (cc h)
      by_test out_of_fuel q h later = absurd (cc h)
      by_test (ok rc) q h later =
          elim (go_on-split c.or_next (is_ok rc) (match_conditions cx l) h) [
            | inl (here, passed) ↦ inr (record {
              before = [];
              taken = c;
              behind = l;
              splits = refl;
              has_or = here;
              passes = (rc, q, passed);
              reached = tt;
            })
            | inr (rest, inl passed) ↦ cons (inl (rc, q, passed)) (later rest)
            | inr (rest, inr (here, failed)) ↦ cons (inr (here, (rc, q, failed))) (later rest)
          ]

  -- A condition that lets the loop go on, before a rest that holds.
  match_conditions-GoesOn :
      (c : RewriteCond) (l : List RewriteCond)
      → GoesOn c
      → match_conditions cx l ≡ ok true
      → match_conditions cx (c ∷ l) ≡ ok true
  unfolding match_conditions
  match_conditions-GoesOn c l (inl (rc, q, passed)) h = rw (q, passed) (either c.or_next)
    where
      either : (b : Bool) → go_on cx b true (match_conditions cx l) ≡ ok true
      either true = refl
      either false = h
  match_conditions-GoesOn c l (inr (here, (rc, q, failed))) h = rw (q, failed, here) h

  match_conditions-All-GoesOn :
      (before l : List RewriteCond)
      → All GoesOn before
      → match_conditions cx l ≡ ok true
      → match_conditions cx (before ++ l) ≡ ok true
  match_conditions-All-GoesOn [] l g h = h
  match_conditions-All-GoesOn (c ∷ before) l g h =
      match_conditions-GoesOn c (before ++ l) g.0 (match_conditions-All-GoesOn before l g.1 h)

  match_conditions_all : (l : List RewriteCond) → All GoesOn l → match_conditions cx l ≡ ok true
  unfolding match_conditions
  match_conditions_all [] g = refl
  match_conditions_all (c ∷ l) g = match_conditions-GoesOn c l g.0 (match_conditions_all l g.1)

  match_conditions_taken :
      (c : RewriteCond) (l : List RewriteCond)
      → c.or_next ≡ true
      → Passes c
      → match_conditions cx (c ∷ l) ≡ ok true
  unfolding match_conditions
  match_conditions_taken c l here (rc, q, passed) = rw (q, passed, here) refl

  -- The conditions of a rule hold exactly if each of them passes, or has OR and fails; or if one with
  -- OR passes, and those before it let the loop go on: then those behind it are not tested.
  pub match_conditions_iff :
      (l : List RewriteCond) → (match_conditions cx l ≡ ok true) ↔ (All GoesOn l ⊎ IsTaken l)
  match_conditions_iff l = (match_conditions_split l, accepted)
    where
      accepted : All GoesOn l ⊎ IsTaken l → match_conditions cx l ≡ ok true
      accepted (inl all) = match_conditions_all l all
      accepted (inr t) = rw t.splits (
          match_conditions-All-GoesOn t.before (t.taken ∷ t.behind) t.reached
            (match_conditions_taken t.taken t.behind t.has_or t.passes))
