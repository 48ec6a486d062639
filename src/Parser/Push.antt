-- ===== src/Parser/Push.antt =====
-- htaccess_push_directive and htaccess_join_args: the directive of a line. The arguments are the
-- tokens of the line, the name first. A read of an argument that the line does not have is a
-- `fault`: the sources read a slot of the token array that nothing wrote.
pub mod Faults
use ngx_htaccess.Common.{
  ℕ, ◌+◌, ◌-◌, ◌^◌, Bool, true, false, ◌&&◌, List, [], ◌∷◌, ◌++◌, none, some, ◌==◌, leb, ltb,
  if◌then◌else◌, Bytes, codes, length, drop, get_elem?, strncmp_eq, Outcome, ok, error, fault,
  ◌>>=◌,
}
use ngx_htaccess.Directives.{
  DirectiveId, Directive, RewriteCond, RewriteRule, zero_rule, zero_header, zero_directive,
}
use ngx_htaccess.Ngx.{Ngx}
use ngx_htaccess.Parser.Conds.{parse_rewrite_cond}
use ngx_htaccess.Parser.Flags.{parse_rule_flags}

-- `((ngx_str_t *) args->elts)[i]`
abbrev pub elem : List Bytes → ℕ → Outcome Bytes
elem args i = elim (get_elem? args i) [ none ↦ fault | some a ↦ ok a ]

-- The texts with a blank between them.
unfoldable pub join : List Bytes → Bytes
join [] = []
join (a ∷ []) = a
join (a ∷ b ∷ as') = a ++ (b' ' ∷ join (b ∷ as'))

unfoldable pub join_args : List Bytes → ℕ → Outcome Bytes
unfolding join
join_args args from = if leb (length args) from then error else ok (join (drop from args))

-- `id == want`, for the two redirects that are told apart.
abbrev pub is_permanent : DirectiveId → Bool
is_permanent DirectiveId.redirect_permanent = true
is_permanent _ = false

abbrev pub is_redirect : DirectiveId → Bool
is_redirect DirectiveId.redirect = true
is_redirect _ = false

-- `args->nelts > 3 && args[3].len >= 3 && ngx_strncmp(args[3].data, "301", 3) == 0`
abbrev pub has_301 : List Bytes → Bool
has_301 (_ ∷ _ ∷ _ ∷ a ∷ _) = leb 3 (length a) && strncmp_eq a (codes "301") 3
has_301 _ = false

-- The result of NGX_ERROR, -1, in an `ngx_uint_t`.
abbrev pub error_code : ℕ
error_code = 2 ^ 64 - 1

-- The value of a header, if the line has one.
abbrev pub value_at : List Bytes → ℕ → Bytes
value_at args i = elim (get_elem? args i) [ none ↦ [] | some v ↦ v ]

module _ (ngx : Ngx) where
  open ngx use {strncasecmp_eq, atoi}

  -- `arg->len == 2 && ngx_strncasecmp(arg->data, "on", 2) == 0`
  abbrev pub is_on : Bytes → Bool
  is_on arg = length arg == 2 && strncasecmp_eq arg (codes "on") 2

  abbrev pub fill_flag : List Bytes → Directive → Outcome Directive
  fill_flag args d = elem args 1 >>= λ arg. ok (record d { flag = is_on arg })

  abbrev pub fill_str : List Bytes → Directive → Outcome Directive
  fill_str args d = elem args 1 >>= λ arg. ok (record d { str = arg })

  -- The flags of a rule, if the line has any behind the substitution.
  abbrev pub rule_flags : List Bytes → RewriteRule → Outcome RewriteRule
  rule_flags [] rule = ok rule
  rule_flags (flags ∷ _) rule = parse_rule_flags ngx flags rule

  unfoldable pub fill_rule : List Bytes → List RewriteCond → Directive → Outcome Directive
  fill_rule (_ ∷ pattern ∷ substitution ∷ rest) conds d =
      rule_flags rest (record zero_rule { pattern = pattern; substitution = substitution })
      >>= λ rule. ok (record d { rewrite_rule = record rule { conditions = conds } })
  fill_rule _ conds d = error

  unfoldable pub fill_alias : List Bytes → Bool → Directive → Outcome Directive
  fill_alias (_ ∷ from ∷ to ∷ rest) permanent d =
      ok (record d { alias = record { from = from; to = to; permanent = permanent; regex = none } })
  fill_alias _ permanent d = error

  -- The header's fields from `offset` on.
  abbrev pub fill_header_at : ℕ → Bool → List Bytes → Directive → Outcome Directive
  fill_header_at offset always args d =
      if leb (length args) (offset + 1)
      then error
      else elem args offset >>= λ action. elem args (offset + 1) >>= λ name. ok (record d {
        header = record {
          action = action;
          name = name;
          value = value_at args (offset + 2);
          target = [];
          always = always;
        };
      })

  unfoldable pub fill_header : List Bytes → Directive → Outcome Directive
  fill_header args d =
      if ltb (length args) 3
      then error
      else elem args 1 >>= λ first.
          if length first == 6 && strncasecmp_eq first (codes "always") 6
          then fill_header_at 2 true args d
          else fill_header_at 1 false args d

  unfoldable pub fill_type : List Bytes → Directive → Outcome Directive
  fill_type (_ ∷ name ∷ value ∷ rest) d =
      ok (record d { header = record zero_header { name = name; value = value } })
  fill_type _ d = error

  unfoldable pub fill_error_document : List Bytes → Directive → Outcome Directive
  fill_error_document (_ ∷ code ∷ uri ∷ rest) d = ok (record d {
    error_doc = record { code = elim (atoi code) [ none ↦ error_code | some n ↦ n ]; uri = uri };
  })
  fill_error_document _ d = error

  unfoldable pub fill_options : List Bytes → Directive → Outcome Directive
  fill_options args d = elem args 1 >>= λ name.
      ok (record d { flag = leb 8 (length name) && strncasecmp_eq name (codes "-Indexes") 8 })

  -- The switch over the id; `conds` are the pending conditions.
  unfoldable pub fill : DirectiveId → List Bytes → List RewriteCond → Directive → Outcome Directive
  unfolding fill_rule fill_alias fill_header fill_type fill_error_document fill_options join_args
  fill DirectiveId.rewrite_engine args conds d = fill_flag args d
  fill DirectiveId.rewrite_base args conds d = fill_str args d
  fill DirectiveId.rewrite_rule args conds d = fill_rule args conds d
  fill DirectiveId.redirect args conds d = fill_alias args (has_301 args) d
  fill DirectiveId.redirect_permanent args conds d = fill_alias args true d
  fill DirectiveId.redirect_temp args conds d = fill_alias args false d
  fill DirectiveId.redirect_match args conds d = fill_alias args true d
  fill DirectiveId.require args conds d =
      if ltb 2 (length args)
      then (join_args args 1 >>= λ s. ok (record d { str = s }))
      else fill_str args d
  fill DirectiveId.auth_type args conds d = fill_str args d
  fill DirectiveId.auth_name args conds d = fill_str args d
  fill DirectiveId.auth_user_file args conds d = fill_str args d
  fill DirectiveId.order args conds d = fill_str args d
  fill DirectiveId.allow args conds d = fill_str args d
  fill DirectiveId.deny args conds d = fill_str args d
  fill DirectiveId.expires_default args conds d = fill_str args d
  fill DirectiveId.directory_index args conds d = fill_str args d
  fill DirectiveId.expires_active args conds d = fill_flag args d
  fill DirectiveId.header args conds d = fill_header args d
  fill DirectiveId.expires_by_type args conds d = fill_type args d
  fill DirectiveId.error_document args conds d = fill_error_document args d
  fill DirectiveId.options args conds d = fill_options args d
  fill DirectiveId.rewrite_cond args conds d = ok d

-- What the parser has gathered: the directives, and the conditions that wait for their rule.
pub record Gathered : Type 0 where
  pub directives : List Directive
  pub pending : List RewriteCond

-- `*pending_conds` behind the switch: a rule takes the conditions.
abbrev pub left_pending : DirectiveId → List RewriteCond → List RewriteCond
left_pending DirectiveId.rewrite_rule conds = []
left_pending _ conds = conds

-- The new directive, zeroed but for its id and the pattern of its `FilesMatch` block.
abbrev pub new_directive : DirectiveId → Bytes → Directive
new_directive id files_match = record (zero_directive id) { files_match = files_match }

module _ (ngx : Ngx) where
  abbrev pub push_cond : List Bytes → Gathered → Outcome Gathered
  push_cond args g =
      parse_rewrite_cond ngx args >>= λ cond. ok (record g { pending = g.pending ++ (cond ∷ []) })

  abbrev pub push_filled : DirectiveId → List Bytes → Bytes → Gathered → Outcome Gathered
  push_filled id args files_match g =
      fill ngx id args g.pending (new_directive id files_match) >>= λ d.
      ok (record { directives = g.directives ++ (d ∷ []); pending = left_pending id g.pending })

  unfoldable pub push_directive : DirectiveId → List Bytes → Bytes → Gathered → Outcome Gathered
  unfolding fill
  push_directive DirectiveId.rewrite_cond args files_match g = push_cond args g
  push_directive id args files_match g = push_filled id args files_match g
