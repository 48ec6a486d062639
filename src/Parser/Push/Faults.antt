-- ===== src/Parser/Push/Faults.antt =====
-- When htaccess_push_directive reads an argument that the line does not have.
use ngx_htaccess.Common.{
  ◌≡◌, refl, ◌↔◌, Bool, true, false, ◌&&◌, List, [], ◌∷◌, arith, if◌then◌else◌, Bytes, Outcome, ok,
  error, fault, out_of_fuel, ◌>>=◌, IsDone, IsRegular,
}
use ngx_htaccess.Directives.{DirectiveId, Directive, RewriteCond, zero_rule}
use ngx_htaccess.Ngx.{Ngx}
use ngx_htaccess.Parser.Conds.{parse_rewrite_cond}
use ngx_htaccess.Parser.Flags.Total.{parse_rule_flags_total}
use ngx_htaccess.Parser.Push.{
  fill, fill_rule, fill_alias, fill_header, fill_type, fill_error_document, Gathered,
  push_directive, new_directive,
}

-- The directives whose argument is read with no test of the number of arguments.
abbrev pub is_unchecked : DirectiveId → Bool
is_unchecked DirectiveId.rewrite_cond = false
is_unchecked DirectiveId.rewrite_rule = false
is_unchecked DirectiveId.redirect = false
is_unchecked DirectiveId.redirect_permanent = false
is_unchecked DirectiveId.redirect_temp = false
is_unchecked DirectiveId.redirect_match = false
is_unchecked DirectiveId.header = false
is_unchecked DirectiveId.expires_by_type = false
is_unchecked DirectiveId.error_document = false
is_unchecked _ = true

abbrev is_nil : List Bytes → Bool
is_nil [] = true
is_nil (_ ∷ _) = false

-- A fault if the flag says so, and otherwise a value or an error.
abbrev Verdict : {A : Type 0} → Bool → Outcome A → Type 0
Verdict true m = m ≡ fault
Verdict false m = IsRegular m

Verdict->>= :
    {A B : Type 0} (b : Bool) (m : Outcome A) (f : A → B)
    → Verdict b m
    → Verdict b (m >>= λ a. ok (f a))
Verdict->>= true m f v = rw v
Verdict->>= false (ok a) f v = tt
Verdict->>= false error f v = tt
Verdict->>= false fault f v = v
Verdict->>= false out_of_fuel f v = v

IsRegular-if :
    {A : Type 0} (b : Bool) (m n : Outcome A)
    → IsRegular m
    → IsRegular n
    → IsRegular (if b then m else n)
IsRegular-if true m n h k = h
IsRegular-if false m n h k = k

module _ (ngx : Ngx) where
  open ngx use {strncasecmp_eq}

  fill_rule-IsRegular :
      (args : List Bytes) (conds : List RewriteCond) (d : Directive)
      → IsRegular (fill_rule ngx args conds d)
  unfolding fill_rule
  fill_rule-IsRegular (_ ∷ pattern ∷ substitution ∷ []) conds d = tt
  fill_rule-IsRegular (_ ∷ pattern ∷ substitution ∷ flags ∷ rest) conds d =
      let (r, e) =
        parse_rule_flags_total ngx flags
          (record zero_rule { pattern = pattern; substitution = substitution }) in
      rw e tt
  fill_rule-IsRegular (_ ∷ pattern ∷ []) conds d = tt
  fill_rule-IsRegular (_ ∷ []) conds d = tt
  fill_rule-IsRegular [] conds d = tt

  fill_alias-IsRegular :
      (args : List Bytes) (permanent : Bool) (d : Directive)
      → IsRegular (fill_alias ngx args permanent d)
  unfolding fill_alias
  fill_alias-IsRegular (_ ∷ from ∷ to ∷ rest) permanent d = tt
  fill_alias-IsRegular _ permanent d = tt

  fill_type-IsRegular : (args : List Bytes) (d : Directive) → IsRegular (fill_type ngx args d)
  unfolding fill_type
  fill_type-IsRegular (_ ∷ name ∷ value ∷ rest) d = tt
  fill_type-IsRegular _ d = tt

  fill_error_document-IsRegular :
      (args : List Bytes) (d : Directive) → IsRegular (fill_error_document ngx args d)
  unfolding fill_error_document
  fill_error_document-IsRegular (_ ∷ code ∷ uri ∷ rest) d = tt
  fill_error_document-IsRegular _ d = tt

  fill_header-IsRegular : (args : List Bytes) (d : Directive) → IsRegular (fill_header ngx args d)
  unfolding fill_header
  fill_header-IsRegular (_ ∷ first ∷ name ∷ []) d = ground arith
  fill_header-IsRegular (_ ∷ first ∷ name ∷ value ∷ rest) d = ground arith
  fill_header-IsRegular _ d = tt

  fill-Verdict :
      (id : DirectiveId) (t : Bytes) (ts : List Bytes) (conds : List RewriteCond) (d : Directive)
      → Verdict (is_unchecked id && is_nil ts) (fill ngx id (t ∷ ts) conds d)
  unfolding fill
  fill-Verdict DirectiveId.rewrite_rule t ts conds d = fill_rule-IsRegular (t ∷ ts) conds d
  fill-Verdict DirectiveId.redirect t ts conds d = fill_alias-IsRegular (t ∷ ts) _ d
  fill-Verdict DirectiveId.redirect_permanent t ts conds d = fill_alias-IsRegular (t ∷ ts) true d
  fill-Verdict DirectiveId.redirect_temp t ts conds d = fill_alias-IsRegular (t ∷ ts) false d
  fill-Verdict DirectiveId.redirect_match t ts conds d = fill_alias-IsRegular (t ∷ ts) true d
  fill-Verdict DirectiveId.header t ts conds d = fill_header-IsRegular (t ∷ ts) d
  fill-Verdict DirectiveId.expires_by_type t ts conds d = fill_type-IsRegular (t ∷ ts) d
  fill-Verdict DirectiveId.error_document t ts conds d = fill_error_document-IsRegular (t ∷ ts) d
  fill-Verdict DirectiveId.rewrite_cond t ts conds d = tt
  fill-Verdict DirectiveId.require t [] conds d = refl
  fill-Verdict DirectiveId.require t (a ∷ []) conds d = tt
  fill-Verdict DirectiveId.require t (a ∷ b ∷ ts) conds d = ground arith
  fill-Verdict id t [] conds d = refl
  fill-Verdict id t (a ∷ ts) conds d = tt

  parse_rewrite_cond-IsRegular : (args : List Bytes) → IsRegular (parse_rewrite_cond ngx args)
  unfolding parse_rewrite_cond
  parse_rewrite_cond-IsRegular (_ ∷ test ∷ []) = ground arith
  parse_rewrite_cond-IsRegular (_ ∷ test ∷ value ∷ []) = ground arith
  parse_rewrite_cond-IsRegular (_ ∷ test ∷ value ∷ flags ∷ rest) = ground arith
  parse_rewrite_cond-IsRegular _ = tt

  push_directive-Verdict :
      (id : DirectiveId) (t : Bytes) (ts : List Bytes) (files_match : Bytes) (g : Gathered)
      → Verdict (is_unchecked id && is_nil ts) (push_directive ngx id (t ∷ ts) files_match g)
  unfolding push_directive
  push_directive-Verdict DirectiveId.rewrite_cond t ts files_match g =
      Verdict->>= false (parse_rewrite_cond ngx (t ∷ ts)) _ (parse_rewrite_cond-IsRegular (t ∷ ts))
  push_directive-Verdict id t ts files_match g =
      Verdict->>= (is_unchecked id && is_nil ts)
        (fill ngx id (t ∷ ts) g.pending (new_directive id files_match)) _
        (fill-Verdict id t ts g.pending (new_directive id files_match))

  IsRegular-ne-fault : {A : Type 0} (m : Outcome A) → IsRegular m → m ≡ fault → ⊥
  IsRegular-ne-fault (ok a) r e = cc
  IsRegular-ne-fault error r e = cc
  IsRegular-ne-fault fault r e = r
  IsRegular-ne-fault out_of_fuel r e = r

  Verdict-iff : {A : Type 0} (b : Bool) (m : Outcome A) → Verdict b m → (m ≡ fault) ↔ (b ≡ true)
  Verdict-iff true m v = (λ _. refl, λ _. v)
  Verdict-iff false m v = (λ e. absurd (IsRegular-ne-fault m v e), λ e. cc)

  -- For a line whose first token is the name `t` and whose other tokens are `ts`, the code reads an
  -- argument that was never written exactly if the directive's arguments are not counted first and
  -- the line has none.
  pub push_directive-fault_iff :
      (id : DirectiveId) (t : Bytes) (ts : List Bytes) (files_match : Bytes) (g : Gathered)
      → (push_directive ngx id (t ∷ ts) files_match g ≡ fault)
        ↔ ((is_unchecked id ≡ true) × (ts ≡ []))
  push_directive-fault_iff id t ts files_match g =
      let both = Verdict-iff _ _ (push_directive-Verdict id t ts files_match g) in
      (λ e. nil_of (is_unchecked id) ts (both.0 e), λ h. both.1 (rw (h.0, h.1)))
    where
      nil_of : (b : Bool) (l : List Bytes) → (b && is_nil l) ≡ true → (b ≡ true) × (l ≡ [])
      nil_of true [] e = (refl, refl)
      nil_of true (_ ∷ _) e = cc
      nil_of false l e = cc

  -- It never runs out of fuel.
  pub push_directive-IsDone :
      (id : DirectiveId) (t : Bytes) (ts : List Bytes) (files_match : Bytes) (g : Gathered)
      → IsDone (push_directive ngx id (t ∷ ts) files_match g)
  push_directive-IsDone id t ts files_match g =
      done (is_unchecked id && is_nil ts) _ (push_directive-Verdict id t ts files_match g)
    where
      done : (b : Bool) (m : Outcome Gathered) → Verdict b m → IsDone m
      done true m v = rw v tt
      done false (ok _) v = tt
      done false error v = tt
      done false fault v = tt
      done false out_of_fuel v = v
